-- ===== src/Models/Flags.antt =====
-- The bit flags of a request header (models/flags.py, models/cursor_flag.py). An `IntFlag` is its
-- number.
use custom_file_operation_pr.Prelude.{ℕ, ◌==◌, Bool, not}
use Prim.Native.Nat.{bit_and, bit_or}

-- `bool(a & b)`
abbrev pub has_flag : ℕ → ℕ → Bool
has_flag bits flag = not (bit_and bits flag == 0)

-- `CategoryFlag`
abbrev pub info_category : ℕ
info_category = 0b0001

abbrev pub auth_category : ℕ
auth_category = 0b0010

abbrev pub file_op_category : ℕ
file_op_category = 0b0100

abbrev pub permission_category : ℕ
permission_category = 0b1000

-- `InfoFlags`
abbrev pub heartbeat_bits : ℕ
heartbeat_bits = 0b00000000

abbrev pub permission_metadata_bit : ℕ
permission_metadata_bit = 0b00000001

abbrev pub file_metadata_bit : ℕ
file_metadata_bit = 0b00000010

abbrev pub storage_usage_bit : ℕ
storage_usage_bit = 0b00000100

abbrev pub ssl_credentials_bit : ℕ
ssl_credentials_bit = 0b00010000

abbrev pub verbose_bit : ℕ
verbose_bit = 0b10000000

abbrev pub operation_extraction_bits : ℕ
operation_extraction_bits = 0b00011111

-- `AuthFlags`
abbrev pub register_bit : ℕ
register_bit = 0b00000001

abbrev pub login_bit : ℕ
login_bit = 0b00000010

abbrev pub refresh_bit : ℕ
refresh_bit = 0b00000100

abbrev pub change_password_bit : ℕ
change_password_bit = 0b00001000

abbrev pub delete_user_bit : ℕ
delete_user_bit = 0b00010000

abbrev pub logout_bit : ℕ
logout_bit = 0b00100000

-- `PermissionFlags.GRANT`, `REVOKE`, `HIDE`, `PUBLICISE`, `TRANSFER`
abbrev pub grant_bit : ℕ
grant_bit = 0b00000001

abbrev pub revoke_bit : ℕ
revoke_bit = 0b00000010

abbrev pub hide_bit : ℕ
hide_bit = 0b00000100

abbrev pub publicise_bit : ℕ
publicise_bit = 0b00001000

abbrev pub transfer_bit : ℕ
transfer_bit = 0b00010000

-- `FileFlags.CREATE`, `READ`, `DELETE`
abbrev pub create_bit : ℕ
create_bit = 0b00000001

abbrev pub read_bit : ℕ
read_bit = 0b00000010

abbrev pub delete_bit : ℕ
delete_bit = 0b00100000

-- `PermissionFlags.READER`, `EDITOR`, `MANAGER` and `ROLE_EXTRACTION_BITMASK`
abbrev pub reader_bit : ℕ
reader_bit = 0b00100000

abbrev pub editor_bit : ℕ
editor_bit = 0b01000000

abbrev pub manager_bit : ℕ
manager_bit = 0b10000000

abbrev pub role_extraction_bitmask : ℕ
role_extraction_bitmask = 0b11100000

-- `FileFlags.WRITE`, `OVERWRITE`, `APPEND`
abbrev pub write_bit : ℕ
write_bit = 0b00000100

abbrev pub overwrite_bit : ℕ
overwrite_bit = 0b00001000

abbrev pub append_bit : ℕ
append_bit = 0b00010000

abbrev pub cursor_keepalive : ℕ
cursor_keepalive = 0b0001

abbrev pub post_operation_cursor_keepalive : ℕ
post_operation_cursor_keepalive = 0b0010

abbrev pub purge_cursor : ℕ
purge_cursor = 0b0100

-- The loop over `CursorFlag` that computes `CURSOR_BITS_CHECK`.
abbrev pub cursor_bits_check : ℕ
cursor_bits_check =
    bit_or (bit_or (bit_or 0 cursor_keepalive) post_operation_cursor_keepalive) purge_cursor
