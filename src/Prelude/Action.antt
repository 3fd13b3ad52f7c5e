-- ===== src/Prelude/Action.antt =====
-- Calls that may raise, over a state that is kept when they do: a write made before the exception
-- stays written.
use custom_file_operation_pr.Prelude.Tests.{if◌then◌else◌}
use mathlib.Core.Path.{◌≡◌, refl, ap}
use mathlib.Core.Logic.{◌⊎◌, inl, inr}
use mathlib.Core.Bool.{Bool}
use mathlib.Core.Option.{Option, none, some}

pub data Result {ℓ κ} (E : Type ℓ) (A : Type κ) : Type (ℓ ⊔ κ) where
  ok : A → Result E A
  err : E → Result E A

pub Result-cases {ℓ κ} :
    {E : Type ℓ} {A : Type κ} (r : Result E A) → ((a : A) × (r ≡ ok a)) ⊎ ((e : E) × (r ≡ err e))
Result-cases (ok a) = inl (a, refl)
Result-cases (err e) = inr (e, refl)

abbrev pub Action : Type 0 → Type 0 → Type 0 → Type 0
Action E S A = S → Result E A × S

infixl 5 ◌>>=◌ ◌>>◌
abbrev pub ◌>>=◌ : {E S A B : Type 0} → Action E S A → (A → Action E S B) → Action E S B
◌>>=◌ m f s = let (r, s') = m s in elim r [ ok a ↦ f a s' | err e ↦ (err e, s') ]

abbrev pub ◌>>◌ : {E S A B : Type 0} → Action E S A → Action E S B → Action E S B
m >> k = m >>= λ _. k

module _ {E S A : Type 0} where
  abbrev pub pure : A → Action E S A
  pure a s = (ok a, s)

  abbrev pub raise : E → Action E S A
  raise e s = (err e, s)

  abbrev pub gets : (S → A) → Action E S A
  gets f s = (ok (f s), s)

  abbrev pub or_raise : E → Option A → Action E S A
  or_raise e none s = (err e, s)
  or_raise e (some a) s = (ok a, s)

  -- `try: m  except e: handler(e)`
  abbrev pub catch : Action E S A → (E → Action E S A) → Action E S A
  catch m handler s = let (r, s') = m s in elim r [ ok a ↦ (ok a, s') | err e ↦ handler e s' ]

module _ {E S : Type 0} where
  abbrev pub modify : (S → S) → Action E S (Unit {0})
  modify f s = (ok tt, f s)

  abbrev pub raise_if : Bool → E → Action E S (Unit {0})
  raise_if b e s = (if b then err e else ok tt, s)

  abbrev pub raise_unless : Bool → E → Action E S (Unit {0})
  raise_unless b e s = (if b then ok tt else err e, s)

-- How a call goes on after one whose answer and state are known.
module _ {E S A B : Type 0} (m : Action E S A) (f : A → Action E S B) {s t : S} where
  pub bind-ok : {a : A} → m s ≡ (ok a, t) → (m >>= f) s ≡ f a t
  bind-ok h = ap (λ r. elim r.0 [ ok a ↦ f a r.1 | err e ↦ (err e, r.1) ]) h

  pub bind-err : {e : E} → m s ≡ (err e, t) → (m >>= f) s ≡ (err e, t)
  bind-err h = ap (λ r. elim r.0 [ ok a ↦ f a r.1 | err e ↦ (err e, r.1) ]) h

module _ {E S A : Type 0} (m : Action E S A) (handler : E → Action E S A) {s t : S} where
  pub catch-ok : {a : A} → m s ≡ (ok a, t) → catch m handler s ≡ (ok a, t)
  catch-ok h = ap (λ r. elim r.0 [ ok a ↦ (ok a, r.1) | err e ↦ handler e r.1 ]) h

  pub catch-err : {e : E} → m s ≡ (err e, t) → catch m handler s ≡ handler e t
  catch-err h = ap (λ r. elim r.0 [ ok a ↦ (ok a, r.1) | err e ↦ handler e r.1 ]) h

-- A call that returns has returned from its first part.
pub bind-inv :
    {E S A B : Type 0} (m : Action E S A) (f : A → Action E S B) (s : S) {b : B}
    → ((m >>= f) s).0 ≡ ok b
    → (a : A) × ((m s).0 ≡ ok a) × ((m >>= f) s ≡ f a (m s).1)
bind-inv m f s h = elim (Result-cases (m s).0) [
  | inl (a, e) ↦ (a, e, bind-ok m f (ap (λ r. (r, (m s).1)) e))
  | inr (x, e) ↦ (let failed = ap (λ r. r.0) (bind-err m f (ap (λ r. (r, (m s).1)) e)) in absurd cc)
]
