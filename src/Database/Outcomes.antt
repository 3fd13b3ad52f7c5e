-- ===== src/Database/Outcomes.antt =====
-- What a call has done when it returns: rules that follow a chain of statements from the tables `t`
-- that it starts on, and hand each test's answer to the proof of what comes after it.
use custom_file_operation_pr.Prelude.{
  ℕ, Text, ◌≡◌, refl, ◌∙◌, ap, Bool, true, false, Option, none, some, ◌∷◌, arith,
}
use custom_file_operation_pr.Prelude.Action.{
  Result, ok, err, ◌>>=◌, pure, raise, or_raise, raise_if, raise_unless, catch,
}
use custom_file_operation_pr.Errors.{Exception, PgError}
use custom_file_operation_pr.Models.Roles.{FilePermissions}
use custom_file_operation_pr.Database.Tables.{Tables, UserRow}
use custom_file_operation_pr.Database.Statements.{find, is_user}
use custom_file_operation_pr.Database.Queries.{permits, check_file_permission, get_user}
use custom_file_operation_pr.Database.Backend.{
  Backend, Db, ConnectionPriority, execute, with_connection, requested,
}

pub record From {A : Type 0} (t : Tables) (m : Db A) (P : A → Tables → Type 0) : Type 0 where
  pub returns : (b : Backend) {a : A} → b.tables ≡ t → (m b).0 ≡ ok a → P a (m b).1.tables

module _ {A : Type 0} {t : Tables} {P : A → Tables → Type 0} where
  pub From-query : (q : Tables → A) → P (q t) t → From t (execute (λ t. ok (t, q t))) P
  unfolding execute
  From-query q p = record {
    returns = λ b {a} e h.
        let same : (execute (λ t. ok (t, q t)) b).1.tables ≡ t = ground arith in
        let value : a ≡ q t = ground arith in rw (same, value) p;
  }

  pub From-execute :
      (f : Tables → Result PgError (Tables × A))
      → ((t' : Tables) (a : A) → f t ≡ ok (t', a) → P a t')
      → From t (execute f) P
  unfolding execute
  From-execute f p = record { returns = λ b {a} e h. p (execute f b).1.tables a (ground arith) }

  pub From-or_raise :
      (e : Exception) (o : Option A) → ((a : A) → o ≡ some a → P a t) → From t (or_raise e o) P
  From-or_raise e none p = record { returns = λ b same h. cc }
  From-or_raise e (some a) p = record {
    returns = λ b {a = a'} same h. rw same (let v : a ≡ a' = cc in p a' (ap some v));
  }

  pub From-pure : (a : A) → P a t → From t (pure a) P
  From-pure a p = record { returns = λ b {a = a'} same h. rw same (let v : a' ≡ a = cc in rw v p) }

  pub From-raise : (e : Exception) → From t (raise e) P
  From-raise e = record { returns = λ b same h. cc }

  pub From-bind :
      {B : Type 0} {m : Db B} {f : B → Db A}
      → From t m (λ b t'. From t' (f b) P)
      → From t (m >>= f) P
  From-bind {B} {m} {f} r = record { returns = λ b {a} same h. go b (m b).0 refl same h }
    where
      go :
          (b : Backend) {a : A} (x : Result Exception B)
          → (m b).0 ≡ x
          → b.tables ≡ t
          → ((m >>= f) b).0 ≡ ok a
          → P a ((m >>= f) b).1.tables
      go b (ok v) e same = rw (e, ◌>>=◌) (λ h. (r.returns b same e).returns (m b).1 refl h)
      go b (err v) e same = rw (e, ◌>>=◌) (λ h. cc)

  pub From-with_connection :
      {m : Db A} (level : ConnectionPriority) → From t m P → From t (with_connection level m) P
  unfolding with_connection
  From-with_connection level r = record {
    returns = λ b same h. r.returns (record b { pool = requested level ∷ b.pool }) same h;
  }

  -- An `except` clause that always raises.
  pub From-catch :
      {m : Db A} {handler : Exception → Db A}
      → From t m P
      → ((e : Exception) (s : Tables) → From s (handler e) (λ _ _. ⊥))
      → From t (catch m handler) P
  From-catch {m} {handler} r s = record { returns = λ b {a} same h. go b (m b).0 refl same h }
    where
      go :
          (b : Backend) {a : A} (x : Result Exception A)
          → (m b).0 ≡ x
          → b.tables ≡ t
          → (catch m handler b).0 ≡ ok a
          → P a (catch m handler b).1.tables
      go b (ok v) e same = rw (e, catch) (λ h. r.returns b same (e ∙ h))
      go b (err v) e same =
          rw (e, catch) (λ h. absurd ((s v (m b).1.tables).returns (m b).1 refl h))

module _ {t : Tables} {P : Unit {0} → Tables → Type 0} where
  pub From-raise_if : (c : Bool) (e : Exception) → (c ≡ false → P tt t) → From t (raise_if c e) P
  From-raise_if true e p = record { returns = λ b same h. cc }
  From-raise_if false e p = record { returns = λ b same h. rw same (p refl) }

  pub From-raise_unless :
      (c : Bool) (e : Exception) → (c ≡ true → P tt t) → From t (raise_unless c e) P
  From-raise_unless true e p = record { returns = λ b same h. rw same (p refl) }
  From-raise_unless false e p = record { returns = λ b same h. cc }

-- The same rules for a call that goes on with `f`.
module _ {A B : Type 0} {t : Tables} {P : B → Tables → Type 0} {f : A → Db B} where
  pub bind-query :
      (q : Tables → A)
      → ((a : A) → a ≡ q t → From t (f a) P)
      → From t (execute (λ t. ok (t, q t)) >>= f) P
  bind-query q k = From-bind {f = f} (From-query q (k (q t) refl))

  pub bind-or_raise :
      (e : Exception) (o : Option A)
      → ((a : A) → o ≡ some a → From t (f a) P)
      → From t (or_raise e o >>= f) P
  bind-or_raise e o k = From-bind {f = f} (From-or_raise e o k)

  pub bind-execute :
      (g : Tables → Result PgError (Tables × A))
      → ((t' : Tables) (a : A) → g t ≡ ok (t', a) → From t' (f a) P)
      → From t (execute g >>= f) P
  bind-execute g k = From-bind {f = f} (From-execute g k)

module _ {B : Type 0} {t : Tables} {P : B → Tables → Type 0} {f : Unit {0} → Db B} where
  pub bind-raise_if :
      (c : Bool) (e : Exception)
      → ((u : Unit {0}) → c ≡ false → From t (f u) P)
      → From t (raise_if c e >>= f) P
  bind-raise_if c e k = From-bind {f = f} (From-raise_if c e (k tt))

  pub bind-raise_unless :
      (c : Bool) (e : Exception)
      → ((u : Unit {0}) → c ≡ true → From t (f u) P)
      → From t (raise_unless c e >>= f) P
  bind-raise_unless c e k = From-bind {f = f} (From-raise_unless c e (k tt))

  -- An `UPDATE` or `DELETE`.
  pub bind-write :
      (g : Tables → Tables)
      → ((u : Unit {0}) → From (g t) (f u) P)
      → From t (execute (λ t. ok (g t, tt)) >>= f) P
  bind-write g k =
      From-bind {f = f} (From-execute _ (λ t' u e. let same : g t ≡ t' = cc in rw (← same) (k u)))

module _ {B : Type 0} {t : Tables} {P : B → Tables → Type 0} where
  pub bind-check_file_permission :
      {f : Bool → Db B} (filename owner grantee : Text) (p : FilePermissions) (until : ℕ)
      → ((allowed : Bool)
          → allowed ≡ permits filename owner grantee p until t
          → From t (f allowed) P)
      → From t (check_file_permission filename owner grantee p until >>= f) P
  unfolding check_file_permission
  bind-check_file_permission {f} filename owner grantee p until k =
      From-bind {f = f} (From-query _ (k (permits filename owner grantee p until t) refl))

  pub bind-get_user :
      {f : Option UserRow → Db B} (u : Text)
      → ((row : Option UserRow) → row ≡ find (is_user u) t.users → From t (f row) P)
      → From t (get_user u >>= f) P
  unfolding get_user
  bind-get_user {f} u k = From-bind {f = f} (From-query _ (k (find (is_user u) t.users) refl))

-- A value computed from what the call returned.
pub From-map :
    {A B : Type 0} {t : Tables} {P : A → Tables → Type 0} {m : Db A} (g : A → B)
    → From t m P
    → From t (m >>= λ a. pure (g a)) (λ c t'. (a : A) × (g a ≡ c) × P a t')
From-map {A} {t = t} {P = P} {m = m} g r = record {
  returns = λ b {a = c} same h. go b (m b).0 refl same h;
}
  where
    go :
        (b : Backend) {c : _} (x : Result Exception A)
        → (m b).0 ≡ x
        → b.tables ≡ t
        → ((m >>= λ a. pure (g a)) b).0 ≡ ok c
        → (a : A) × (g a ≡ c) × P a ((m >>= λ a. pure (g a)) b).1.tables
    go b (ok v) e same = rw (e, ◌>>=◌) (λ h. (v, cc, r.returns b same e))
    go b (err v) e same = rw (e, ◌>>=◌) (λ h. cc)

pub From-weaken :
    {A : Type 0} {t : Tables} {P Q : A → Tables → Type 0} {m : Db A}
    → From t m P
    → ((a : A) (t' : Tables) → P a t' → Q a t')
    → From t m Q
From-weaken {m} r k = record { returns = λ b {a} same h. k a (m b).1.tables (r.returns b same h) }
