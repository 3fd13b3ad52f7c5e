-- ===== src/Dispatch/Shrinks.antt =====
-- A request takes bytes from its connection and puts none there.
use custom_file_operation_pr.Prelude.{
  ℕ, ◌≤◌, ap, inl, inr, if◌then◌else◌, Bool, true, false, Option, none, some, List, length, Bytes,
  arith,
}
use custom_file_operation_pr.Prelude.Ttl.{TtlCache}
use custom_file_operation_pr.Prelude.Action.{
  Action, ◌>>=◌, pure, or_raise, raise_if, raise_unless, Result-cases, bind-ok, bind-err,
}
use Prim.Native.Nat.{bit_and}
use custom_file_operation_pr.Models.Flags.{operation_extraction_bits}
use custom_file_operation_pr.Errors.{Exception, key_error, unsupported_operation}
use custom_file_operation_pr.Models.Request.{BaseHeaderComponent, BaseAuthComponent}
use custom_file_operation_pr.Authz.State.{Method}
use custom_file_operation_pr.Authz.Sessions.{authenticate_session}
use custom_file_operation_pr.Streams.Padding.{Json}
use custom_file_operation_pr.Streams.Reads.{length-read_exactly}
use custom_file_operation_pr.Dispatch.Incoming.{process_component}
use custom_file_operation_pr.Dispatch.Handlers.{
  ServerSingletonsRegistry, Call, Handling, Registry, on_registry, read_component, asserted,
  authenticate, ComponentJson, on_user_manager, auth_component, info_auth, info_component,
  AuthSubhandler, PermissionSubhandler, FileSubhandler, InfoSubhandler, without_role,
  serve_permission, serve_file, top_auth_handler, top_permission_handler, top_file_handler,
  top_info_handler,
}

pub record Shrinks {S A : Type 0} (m : Handling S A) : Type 0 where
  pub shrinks : (c : Call S) → length (m c).1.reader.buffer ≤ length c.reader.buffer

module _ {S A B : Type 0} {m : Handling S A} {f : A → Handling S B} where
  buffer-bind :
      Shrinks m
      → ((a : A) → Shrinks (f a))
      → (c : Call S) → length ((m >>= f) c).1.reader.buffer ≤ length c.reader.buffer
  buffer-bind h k c = elim (Result-cases (m c).0) [
    | inl (a, e) ↦
        (let step = bind-ok m f (ap (λ r. (r, (m c).1)) e) in
          let size = ap (λ r. length r.1.reader.buffer) step in
          omega (arith, size, h.shrinks c, (k a).shrinks (m c).1))
    | inr (x, e) ↦
        (let step = bind-err m f (ap (λ r. (r, (m c).1)) e) in
          let size = ap (λ r. length r.1.reader.buffer) step in omega (arith, size, h.shrinks c))
  ]

  pub Shrinks-bind : Shrinks m → ((a : A) → Shrinks (f a)) → Shrinks (m >>= f)
  Shrinks-bind h k = record { shrinks = buffer-bind h k }

module _ {S A : Type 0} where
  pub Shrinks-pure : (a : A) → Shrinks {S = S} (pure a)
  Shrinks-pure a = record { shrinks = λ c. omega arith }

  pub Shrinks-or_raise : (e : Exception) (o : Option A) → Shrinks {S = S} (or_raise e o)
  Shrinks-or_raise e none = record { shrinks = λ c. omega arith }
  Shrinks-or_raise e (some a) = record { shrinks = λ c. omega arith }

  pub Shrinks-on_registry : (m : Action Exception S A) → Shrinks (on_registry m)
  Shrinks-on_registry m = record { shrinks = λ c. omega arith }

  pub Shrinks-read_component : (J : Json A) (n : ℕ) → Shrinks {S = S} (read_component J n)
  unfolding read_component process_component
  Shrinks-read_component J n = record { shrinks = λ c. length-read_exactly n c.reader }

  Shrinks-if :
      (b : Bool) {m k : Handling S A} → Shrinks m → Shrinks k → Shrinks {S = S} (if b then m else k)
  Shrinks-if true h k = h
  Shrinks-if false h k = k

module _ {S : Type 0} where
  Shrinks-asserted : (token : Option Bytes) → Shrinks {S = S} (asserted token)
  Shrinks-asserted token = record { shrinks = λ c. omega arith }

  Shrinks-raise_if : (b : Bool) (e : Exception) → Shrinks {S = S} (raise_if b e)
  Shrinks-raise_if b e = record { shrinks = λ c. omega arith }

  Shrinks-raise_unless : (b : Bool) (e : Exception) → Shrinks {S = S} (raise_unless b e)
  Shrinks-raise_unless b e = record { shrinks = λ c. omega arith }

module _ (J : ComponentJson) {S : Type 0} (header : BaseHeaderComponent) where
  auth_component-Shrinks : Shrinks {S = S} (auth_component J header)
  auth_component-Shrinks =
      Shrinks-if _ (Shrinks-bind (Shrinks-raise_unless _ _) (λ _. Shrinks-pure _))
        (Shrinks-bind (Shrinks-read_component J.auth header.auth_size) (λ _. Shrinks-pure _))

  pub top_auth_handler-Shrinks :
      {R : Type 0} (mapping : ℕ → Option (AuthSubhandler S R))
      → Shrinks (top_auth_handler J mapping header)
  unfolding top_auth_handler
  top_auth_handler-Shrinks mapping = Shrinks-bind auth_component-Shrinks (λ auth.
      Shrinks-bind (Shrinks-or_raise _ (mapping header.subcategory))
        (λ subhandler. Shrinks-on_registry (subhandler header auth)))

module _ {Digests V A : Type 0} where
  Shrinks-on_user_manager :
      (m : Method Digests A) → Shrinks {S = ServerSingletonsRegistry Digests V} (on_user_manager m)
  Shrinks-on_user_manager m = record { shrinks = λ c. omega arith }

module _ (J : ComponentJson) (D : TtlCache (List Bytes)) {V : Type 0} (now : ℕ)
    (header : BaseHeaderComponent) where
  authenticate-Shrinks :
      (auth : BaseAuthComponent) (token : Bytes) → Shrinks (authenticate D {V = V} now auth token)
  unfolding authenticate
  authenticate-Shrinks auth token =
      Shrinks-bind (Shrinks-on_user_manager (authenticate_session D auth.identity token true now))
        (λ _. Shrinks-pure _)

  pub top_permission_handler-Shrinks :
      {R : Type 0} (mapping : ℕ → Option (PermissionSubhandler (Registry D V) R))
      → Shrinks (top_permission_handler J D now header mapping)
  unfolding top_permission_handler serve_permission
  top_permission_handler-Shrinks mapping = Shrinks-bind (Shrinks-raise_if _ _) (λ _.
      Shrinks-bind (Shrinks-read_component J.auth header.auth_size) (λ auth.
        Shrinks-bind (Shrinks-asserted auth.token) (λ token.
          Shrinks-bind (Shrinks-raise_unless _ _) (λ _.
            Shrinks-bind (authenticate-Shrinks auth token) (λ _.
              Shrinks-bind (Shrinks-read_component J.permission header.body_size) (λ body.
                Shrinks-bind (Shrinks-or_raise _ (mapping (without_role header.subcategory)))
                  (λ subhandler. Shrinks-on_registry (subhandler header auth body))))))))

  pub top_file_handler-Shrinks :
      {R : Type 0} (mapping : ℕ → Option (FileSubhandler (Registry D V) R))
      → Shrinks (top_file_handler J D now header mapping)
  unfolding top_file_handler serve_file
  top_file_handler-Shrinks mapping = Shrinks-bind (Shrinks-raise_if _ _) (λ _.
      Shrinks-bind (Shrinks-read_component J.auth header.auth_size) (λ auth.
        Shrinks-bind (Shrinks-raise_unless _ _) (λ _.
          Shrinks-bind (Shrinks-asserted auth.token) (λ token.
            Shrinks-bind (Shrinks-raise_unless _ _) (λ _.
              Shrinks-bind (authenticate-Shrinks auth token) (λ _.
                Shrinks-bind (Shrinks-read_component J.file header.body_size) (λ body.
                  Shrinks-bind (Shrinks-or_raise _ (mapping header.subcategory))
                    (λ subhandler. Shrinks-on_registry (subhandler header auth body)))))))))

  info_auth-Shrinks : (bits : ℕ) → Shrinks (info_auth J D {V = V} now header bits)
  info_auth-Shrinks bits = Shrinks-if _ (Shrinks-pure _) (
      Shrinks-bind (Shrinks-raise_if _ _) (λ _.
        Shrinks-bind (Shrinks-read_component J.auth header.auth_size) (λ auth.
          Shrinks-bind (Shrinks-asserted auth.token)
            (λ token. Shrinks-bind (authenticate-Shrinks auth token) (λ _. Shrinks-pure _)))))

  info_component-Shrinks : (bits : ℕ) → Shrinks (info_component J D {V = V} now header bits)
  info_component-Shrinks bits = Shrinks-if _ (Shrinks-pure _) (
      Shrinks-bind (Shrinks-raise_if _ _)
        (λ _. Shrinks-bind (Shrinks-read_component J.info header.body_size) (λ _. Shrinks-pure _)))

  pub top_info_handler-Shrinks :
      {R : Type 0} (known : ℕ → Bool) (mapping : ℕ → Option (InfoSubhandler (Registry D V) R))
      → Shrinks (top_info_handler J D now header known mapping)
  unfolding top_info_handler
  top_info_handler-Shrinks known mapping =
      let bits = bit_and operation_extraction_bits header.subcategory in
      Shrinks-bind (Shrinks-raise_unless (known header.subcategory) unsupported_operation) (λ _.
        Shrinks-bind (info_auth-Shrinks bits) (λ auth.
          Shrinks-bind (info_component-Shrinks bits) (λ info.
            Shrinks-bind (Shrinks-or_raise key_error (mapping bits))
              (λ subhandler. Shrinks-on_registry (subhandler header auth info)))))
