-- ===== src/Streams/Padding.antt =====
-- Components as JSON, and headers padded with spaces.
use custom_file_operation_pr.Prelude.{
  ℕ, zero, suc, ◌-◌, max, ◌≡◌, Option, [], ◌∷◌, ◌++◌, length, Bytes, length-append, arith,
}

-- What pydantic derives for a model: `model_dump_json().encode('utf-8')` and
-- `model_validate_json`, where `none` is a `ValidationError`.
pub record Json (A : Type 0) : Type 0 where
  pub model_dump_json : A → Bytes
  pub model_validate_json : Bytes → Option A

-- `b' ' * n`
unfoldable pub spaces : ℕ → Bytes
spaces zero = []
spaces (suc n) = b' ' ∷ spaces n

-- `stream + b' ' * (size - len(stream))`; a negative number of spaces is none.
unfoldable pub pad : (size : ℕ) → Bytes → Bytes
pad size stream = stream ++ spaces (size - length stream)

length-spaces : (n : ℕ) → length (spaces n) ≡ n
unfolding spaces
length-spaces zero = omega arith
length-spaces (suc n) = omega (arith, length-spaces n)

pub length-pad : (size : ℕ) (stream : Bytes) → length (pad size stream) ≡ max size (length stream)
unfolding pad
length-pad size stream = omega (
  arith,
  length-append stream (spaces (size - length stream)),
  length-spaces (size - length stream),
)
