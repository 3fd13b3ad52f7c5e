-- ===== src/Info/Identity.antt =====
-- `derive_file_identity` of server/info_ops/utils.py: `owner/filename` in its two parts.
use custom_file_operation_pr.Prelude.{
  ℕ, ◌==◌, ==_iff, if◌then◌else◌, ◌≡◌, ◌↔◌, refl, sym, ◌∙◌, ap, All, Bool, true, false, List, [],
  ◌∷◌, ◌++◌, any, Text, arith,
}
use custom_file_operation_pr.Prelude.Action.{Result, ok, err}
use custom_file_operation_pr.Errors.{Exception, invalid_body_values}

abbrev prepend : ℕ → List Text → List Text
prepend c [] = (c ∷ []) ∷ []
prepend c (part ∷ parts) = (c ∷ part) ∷ parts

-- `identity.split('/')`
unfoldable pub split_slash : Text → List Text
split_slash [] = [] ∷ []
split_slash (c ∷ s) = let parts = split_slash s in if c == b'/' then [] ∷ parts else prepend c parts

abbrev two_parts : List Text → Result Exception (Text × Text)
two_parts (owner ∷ filename ∷ []) = ok (owner, filename)
two_parts _ = err invalid_body_values

unfoldable pub derive_file_identity : Text → Result Exception (Text × Text)
unfolding split_slash
derive_file_identity identity = two_parts (split_slash identity)

abbrev pub has_slash : Text → Bool
has_slash s = any (λ c. c == b'/') s

split_slash-plain : (s : Text) → has_slash s ≡ false → split_slash s ≡ s ∷ []
unfolding split_slash
split_slash-plain [] h = refl
split_slash-plain (c ∷ s) h = ground (arith, split_slash-plain s)

split_slash-append :
    (owner filename : Text)
    → has_slash owner ≡ false
    → has_slash filename ≡ false
    → split_slash (owner ++ b'/' ∷ filename) ≡ owner ∷ filename ∷ []
unfolding split_slash
split_slash-append [] filename _ h = ground (arith, split_slash-plain filename h)
split_slash-append (c ∷ owner) filename o h =
    ground (arith, split_slash-append owner filename (ground arith) h)

-- The parts of a text, joined again.
abbrev join_slash : List Text → Text
join_slash [] = []
join_slash (part ∷ []) = part
join_slash (part ∷ next ∷ parts) = part ++ b'/' ∷ join_slash (next ∷ parts)

-- What `split_slash` gives has at least one part, no part with a slash, and joins to the text.
record Parts (s : Text) (parts : List Text) : Type 0 where
  part : Text
  rest : List Text
  shape : parts ≡ part ∷ rest
  plain : All (λ p. has_slash p ≡ false) parts
  joined : join_slash parts ≡ s

join_slash-prepend :
    (c : ℕ) (part : Text) (parts : List Text)
    → join_slash ((c ∷ part) ∷ parts) ≡ c ∷ join_slash (part ∷ parts)
join_slash-prepend c part [] = refl
join_slash-prepend c part (next ∷ parts) = refl

cons-Parts :
    (c : ℕ) (s : Text) (parts : List Text) (slash : Bool)
    → (c == b'/') ≡ slash
    → Parts s parts
    → Parts (c ∷ s) (if slash then [] ∷ parts else prepend c parts)
cons-Parts c s [] slash e t = absurd (let shape = t.shape in cc)
cons-Parts c s (p ∷ ps) true e t = record {
  part = [];
  rest = p ∷ ps;
  shape = refl;
  plain = (refl, t.plain);
  joined = let same = (==_iff c b'/').0 e in let joined = t.joined in cc;
}
cons-Parts c s (p ∷ ps) false e t = record {
  part = c ∷ p;
  rest = ps;
  shape = refl;
  plain = (let plain = t.plain.0 in ground arith, t.plain.1);
  joined = join_slash-prepend c p ps ∙ ap (λ u. c ∷ u) t.joined;
}

split_slash-Parts : (s : Text) → Parts s (split_slash s)
unfolding split_slash
split_slash-Parts [] = record {
  part = [];
  rest = [];
  shape = refl;
  plain = (refl, tt);
  joined = refl;
}
split_slash-Parts (c ∷ s) = cons-Parts c s (split_slash s) (c == b'/') refl (split_slash-Parts s)

two_parts-ok :
    (parts : List Text) (owner filename : Text) {s : Text}
    → Parts s parts
    → two_parts parts ≡ ok (owner, filename)
    → (s ≡ owner ++ b'/' ∷ filename) × (has_slash owner ≡ false) × (has_slash filename ≡ false)
two_parts-ok [] owner filename t h = absurd cc
two_parts-ok (a ∷ []) owner filename t h = absurd cc
two_parts-ok (a ∷ b ∷ []) owner filename t h =
    let first : a ≡ owner = cc in
    let second : b ≡ filename = cc in
    let (plain_a, (plain_b, _)) = t.plain in
    (
      sym t.joined ∙ ap (λ x. x ++ b'/' ∷ b) first ∙ ap (λ x. owner ++ b'/' ∷ x) second,
      ap has_slash (sym first) ∙ plain_a,
      ap has_slash (sym second) ∙ plain_b,
    )
two_parts-ok (a ∷ b ∷ c ∷ parts) owner filename t h = absurd cc

-- A file's identity is read back: `derive_file_identity` answers with an owner and a file name just
-- when the text is the two joined by a slash and neither has a slash in it.
pub derive_file_identity_iff :
    (identity owner filename : Text)
    → (derive_file_identity identity ≡ ok (owner, filename)) ↔ (
        (identity ≡ owner ++ b'/' ∷ filename)
        × (has_slash owner ≡ false)
        × (has_slash filename ≡ false))
unfolding derive_file_identity
derive_file_identity_iff identity owner filename = (
  two_parts-ok (split_slash identity) owner filename (split_slash-Parts identity),
  λ (e, o, f). ap two_parts (ap split_slash e ∙ split_slash-append owner filename o f),
)
