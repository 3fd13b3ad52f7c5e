-- ===== src/Authz/Expiry.antt =====
-- The task that trims the sessions.
use custom_file_operation_pr.Prelude.{
  ℕ, ◌≤◌, ltb, ◌≡◌, ◌↔◌, refl, inl, inr, Bool, false, Option, none, some, List, [], ◌∷◌, any, Text,
  Bytes, text_eq, text_eq_iff, arith, Option-cases, if◌then◌else◌,
}
use custom_file_operation_pr.Prelude.Dict.{Dict, lookup, lookup-erase, IsDict}
use custom_file_operation_pr.Prelude.Ttl.{TtlCache}
use custom_file_operation_pr.Models.Session.{SessionMetadata, get_validity}
use custom_file_operation_pr.Authz.State.{UserManager}
use custom_file_operation_pr.Authz.Sessions.{hitlist, forget, forget_all, expire_sessions}

-- Whether the session that is found, if any, is over.
abbrev is_over : ℕ → Option SessionMetadata → Bool
is_over now none = false
is_over now (some auth) = ltb (get_validity auth) now

hitlist-absent :
    (now : ℕ) (u : Text) (m : Dict SessionMetadata)
    → lookup u m ≡ none
    → any (λ k. text_eq k u) (hitlist now m) ≡ false
unfolding hitlist lookup
hitlist-absent now u [] h = refl
hitlist-absent now u ((k, a) ∷ m) h = ground (arith, hitlist-absent now u m)

hitlist-is_over :
    (now : ℕ) (u : Text) (m : Dict SessionMetadata)
    → IsDict m
    → any (λ k. text_eq k u) (hitlist now m) ≡ is_over now (lookup u m)
unfolding hitlist lookup
hitlist-is_over now u [] d = refl
hitlist-is_over now u ((k, a) ∷ m) d =
    ground (arith, text_eq_iff k u, hitlist-absent now u m, hitlist-is_over now u m d.1)

module _ (D : TtlCache (List Bytes)) where
  lookup-forget_all :
      (now : ℕ) (u : Text) (us : List Text) (s : UserManager D.Cache)
      → lookup u (forget_all D now us s).session
        ≡ (if any (λ k. text_eq k u) us then none else lookup u s.session)
  unfolding forget_all
  lookup-forget_all now u [] s = refl
  lookup-forget_all now u (k ∷ us) s =
      ground (arith, lookup-forget_all now u us (forget D now k s), lookup-erase k u s.session)

  -- One round of the trimming task keeps exactly the sessions that are not over, each as it was.
  pub expire_sessions_iff :
      (now : ℕ) (u : Text) (s : UserManager D.Cache) (auth : SessionMetadata)
      → IsDict s.session
      → (lookup u (expire_sessions D now s).session ≡ some auth)
        ↔ ((lookup u s.session ≡ some auth) × (now ≤ get_validity auth))
  unfolding expire_sessions
  expire_sessions_iff now u s auth d = elim (Option-cases (lookup u s.session)) [
    | inl absent ↦ ground (
      arith,
      lookup-forget_all now u (hitlist now s.session) s,
      hitlist-is_over now u s.session d,
    )
    | inr (found, e) ↦ ground (
      arith,
      lookup-forget_all now u (hitlist now s.session) s,
      hitlist-is_over now u s.session d,
    )
  ]
