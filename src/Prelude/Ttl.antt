-- ===== src/Prelude/Ttl.antt =====
-- `cachetools.TTLCache`, a package that the server only calls: its operations, and what its
-- documentation promises of them. The first argument of a call is the instant at which it is made.
use custom_file_operation_pr.Prelude.Texts.{Text}
use Prim.Native.Nat.{ℕ, ◌≤◌}
use mathlib.Core.Path.{◌≡◌}
use mathlib.Core.Logic.{◌≢◌, ◌⊎◌}
use mathlib.Core.Option.{Option, none, some}

pub record TtlCache (V : Type 0) : Type 1 where
  pub Cache : Type 0
  pub get : ℕ → Text → Cache → Option V
  pub set : ℕ → Text → V → Cache → Cache
  pub pop : ℕ → Text → Cache → Cache
  pub clear : Cache → Cache
  -- An entry is there when it has just been written, and gone once it is popped or cleared.
  pub get-set_self : (t : ℕ) (k : Text) (v : V) (c : Cache) → get t k (set t k v c) ≡ some v
  pub get-pop_self : (t u : ℕ) (k : Text) (c : Cache) → get u k (pop t k c) ≡ none
  pub get-clear : (t : ℕ) (k : Text) (c : Cache) → get t k (clear c) ≡ none
  -- A write to another key keeps an entry, or evicts it to make room; a removal keeps it.
  pub get-set_ne :
      (t : ℕ) (k j : Text) (v : V) (c : Cache)
      → k ≢ j
      → (get t j (set t k v c) ≡ get t j c) ⊎ (get t j (set t k v c) ≡ none)
  pub get-pop_ne : (t : ℕ) (k j : Text) (c : Cache) → k ≢ j → get t j (pop t k c) ≡ get t j c
  -- Entries only ever expire.
  pub get_earlier :
      (t u : ℕ) (k : Text) (c : Cache) {v : V} → t ≤ u → get u k c ≡ some v → get t k c ≡ some v
