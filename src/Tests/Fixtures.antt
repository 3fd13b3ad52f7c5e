-- ===== src/Tests/Fixtures.antt =====
-- The inputs of the runs: two users, one file and its owner's role.
use custom_file_operation_pr.Prelude.{
  leb, false, ◌&&◌, ◌||◌, none, some, List, [], ◌∷◌, ◌++◌, Text, Bytes, codes, inl,
}
use custom_file_operation_pr.Prelude.Int.{pos}
use custom_file_operation_pr.Prelude.Dict.{
  Dict, lookup, insert, erase, lookup-insert_self, lookup-erase_self, lookup-insert_ne,
  lookup-erase_ne,
}
use custom_file_operation_pr.Prelude.Ttl.{TtlCache}
use custom_file_operation_pr.Prelude.{
  Option, if◌then◌else◌, all, ltb, All, ◌<◌, Bool-cases, inr, arith,
}
use custom_file_operation_pr.Client.SessionManager.{Utf8}
use mathlib.Core.Path.{◌≡◌, refl}
use custom_file_operation_pr.Models.Roles.{RoleTypes}
use custom_file_operation_pr.Models.Request.{
  BaseHeaderComponent, BaseAuthComponent, BasePermissionComponent,
}
use custom_file_operation_pr.Models.Responses.{ServerConfig}
use custom_file_operation_pr.Models.Session.{SessionMetadata}
use custom_file_operation_pr.Database.Tables.{UserRow, FileRow, PermissionRow, Tables}
use custom_file_operation_pr.Database.Backend.{Backend}
use custom_file_operation_pr.Authz.Library.{Library}
use custom_file_operation_pr.Authz.State.{UserManager}

pub lookup-empty : (k : Text) → lookup {V = List Bytes} k [] ≡ none
unfolding lookup
lookup-empty k = refl

-- A cache from which nothing expires.
abbrev pub plain_cache : TtlCache (List Bytes)
plain_cache = record {
  Cache = Dict (List Bytes);
  get = λ t k c. lookup k c;
  set = λ t k v c. insert k v c;
  pop = λ t k c. erase k c;
  clear = λ c. [];
  get-set_self = λ t k v c. lookup-insert_self k v c;
  get-pop_self = λ t u k c. lookup-erase_self k c;
  get-clear = λ t k c. lookup-empty k;
  get-set_ne = λ t k j v c h. inl (lookup-insert_ne k j v c h);
  get-pop_ne = λ t k j c h. lookup-erase_ne k j c h;
  get_earlier = λ t u k c le h. h;
}

abbrev pub ascii : Library
ascii = record {
  pbkdf2_hmac = λ password salt. salt ++ password;
  is_alnum = λ c. leb b'0' c && leb c b'9' || leb b'A' c && leb c b'Z' || leb b'a' c && leb c b'z';
}

abbrev pub alice : Text
alice = codes "alice"

abbrev pub bob : Text
bob = codes "bob"

abbrev pub notes : Text
notes = codes "notes"

abbrev pub user_row : Text → UserRow
user_row name = record {
  username = name;
  file_count = pos 0;
  storage_used = pos 0;
  password_hash = codes "salt-pass";
  password_salt = codes "salt-";
}

abbrev pub file_row : FileRow
file_row = record { filename = notes; owner = alice; file_size = pos 5; public = false }

abbrev pub owner_row : PermissionRow
owner_row = record {
  file_owner = alice;
  filename = notes;
  grantee = alice;
  role = RoleTypes.owner;
  granted_at = 1;
  granted_by = some alice;
  granted_until = none;
}

abbrev pub tables : Tables
tables = record {
  users = user_row alice ∷ user_row bob ∷ [];
  files = file_row ∷ [];
  file_permissions = owner_row ∷ [];
  ban_logs = [];
}

abbrev pub backend : Backend
backend = record { tables = tables; faults = []; pool = []; activity = [] }

-- A `GRANT` request of the reader role.
abbrev pub header : BaseHeaderComponent
header = record {
  version = codes "1.0";
  auth_size = 0;
  body_size = 0;
  sender_timestamp = 10;
  finish = false;
  category = 4;
  subcategory = 0b00100000;
}

abbrev pub by_alice : BaseAuthComponent
by_alice = record {
  identity = alice;
  password = none;
  token = some (codes "t");
  refresh_digest = some (codes "d");
}

abbrev pub for_bob : BasePermissionComponent
for_bob = record {
  subject_file = notes;
  subject_file_owner = alice;
  subject_user = some bob;
  effect_duration = none;
}

abbrev pub config : ServerConfig
config = record {
  version = codes "1.0";
  files_directory = codes "files";
  session_lifespan = 100;
  user_max_files = pos 5;
  user_max_storage = pos 9;
}

-- A session of one user, with the token "t" and the digest "d".
abbrev pub session : SessionMetadata
session = record {
  token = codes "t";
  refresh_digest = codes "d";
  last_refresh = 10;
  lifespan = 100;
  valid_until = 110;
  iteration = 1;
}

abbrev pub manager : UserManager (Dict (List Bytes))
manager = record {
  session = (alice, session) ∷ [];
  previous_digests_mapping = [];
  session_lifespan = 100;
  session_refresh_nbf = 5;
  backend = backend;
  tasks = [];
}

abbrev ascii_text : Bytes → Option Text
ascii_text b = if all (λ c. ltb c 128) b then some b else none

pub ascii_text-some : (b : Bytes) → All (λ c. c < 128) b → ascii_text b ≡ some b
ascii_text-some [] h = refl
ascii_text-some (c ∷ b) (small, h) = ground (arith, ascii_text-some b h)

pub ascii_text-inv : (b : Bytes) (t : Text) → ascii_text b ≡ some t → t ≡ b
ascii_text-inv b t h = elim (Bool-cases (all (λ c. ltb c 128) b)) [
  | inl plain ↦ ground arith
  | inr other ↦ absurd (ground arith)
]

-- Texts of ASCII characters.
abbrev pub utf8 : Utf8
utf8 = record { decode = ascii_text; encode = λ t. t; encode-decode = ascii_text-inv }
