-- ===== src/Authz/Refusals.antt =====
-- What `change_password`, its handler and `check_banned` answer (server/authz).
use custom_file_operation_pr.Prelude.{
  ℕ, ◌≡◌, ◌≢◌, refl, inl, inr, false, none, List, [], ◌∷◌, any, All, Text, Bytes, text_eq_iff,
  arith, Bool-cases,
}
use custom_file_operation_pr.Prelude.Ttl.{TtlCache}
use custom_file_operation_pr.Prelude.Action.{ok}
use custom_file_operation_pr.Models.Request.{BaseHeaderComponent, BaseAuthComponent, truthy}
use custom_file_operation_pr.Models.Responses.{ServerConfig, ResponseHeader}
use custom_file_operation_pr.Database.Tables.{BanRow}
use custom_file_operation_pr.Database.Backend.{Backend, ConnectionPriority}
use custom_file_operation_pr.Authz.Library.{Library}
use custom_file_operation_pr.Authz.State.{UserManager}
use custom_file_operation_pr.Authz.Bans.{check_banned, is_lifted}
use custom_file_operation_pr.Authz.Accounts.{change_password}
use custom_file_operation_pr.Authz.Handlers.{handle_password_change}

-- `handle_password_change` raises on every request, in every state: an auth component that passes
-- its check has no password, and is then refused for having none.
pub handle_password_change-raises :
    (lib : Library) (D : TtlCache (List Bytes)) (header : BaseHeaderComponent)
    (auth : BaseAuthComponent) (config : ServerConfig) (now : ℕ) (s : UserManager D.Cache)
    {r : ResponseHeader}
    → (handle_password_change lib D header auth config now s).0 ≢ ok r
unfolding handle_password_change
handle_password_change-raises lib D header auth config now s =
    elim (Bool-cases (truthy auth.password)) [
      | inl given ↦ ground arith
      | inr absent ↦ ground arith
    ]

-- `change_password` raises whatever it is called with: its `UPDATE` names columns that the table
-- does not have.
change_password-raises :
    (lib : Library) (username new_password : Text) (b : Backend) {u : Unit {0}}
    → (change_password lib username new_password b).0 ≢ ok u
unfolding change_password
change_password-raises lib username new_password b = ground arith

none_lifted-any :
    (username : Text) (now : ℕ) (rows : List BanRow)
    → All (λ r. r.username ≡ username → r.lifted_at ≡ none) rows
    → any (is_lifted username now) rows ≡ false
none_lifted-any username now [] h = refl
none_lifted-any username now (r ∷ rows) h =
    ground (arith, text_eq_iff r.username username, h.0, none_lifted-any username now rows h.1)

-- While the database answers, `check_banned` says `False` of every user none of whose bans was
-- lifted, so of one whose ban is in force.
pub check_banned-in_force :
    (username : Text) (level : ConnectionPriority) (now : ℕ) (b : Backend)
    → All (λ r. r.username ≡ username → r.lifted_at ≡ none) b.tables.ban_logs
    → b.faults ≡ []
    → (check_banned username level now b).0 ≡ ok false
unfolding check_banned
check_banned-in_force username level now b none_lifted quiet =
    ground (arith, none_lifted-any username now b.tables.ban_logs none_lifted)
