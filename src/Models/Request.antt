-- ===== src/Models/Request.antt =====
-- The components of a request, as far as the handlers read them, and the checks that the auth
-- and file components make on themselves (models/request_model.py).
use custom_file_operation_pr.Prelude.{
  ℕ, Bool, true, false, not, ◌&&◌, ◌||◌, Option, none, some, List, [], ◌∷◌, ◌++◌, ◌==◌, Text, Bytes,
}
use custom_file_operation_pr.Models.Flags.{cursor_bits_check}
use Prim.Native.Nat.{bit_and}

-- A member of the enumerations that name the two uses of an auth component.
pub data AuthFlag : Type 0 where
  authorization authentication : AuthFlag

pub record BaseAuthComponent : Type 0 where
  pub identity : Text
  pub password : Option Text
  pub token : Option Bytes
  pub refresh_digest : Option Bytes

pub record BasePermissionComponent : Type 0 where
  pub subject_file : Text
  pub subject_file_owner : Text
  pub subject_user : Option Text
  pub effect_duration : Option ℕ

pub record BaseInfoComponent : Type 0 where
  pub subject_resource : Option Text

pub record BaseHeaderComponent : Type 0 where
  pub version : Text
  pub auth_size : ℕ
  pub body_size : ℕ
  pub sender_timestamp : ℕ
  pub finish : Bool
  pub category : ℕ
  pub subcategory : ℕ

-- `bool(x)` of an optional text: an empty one is false too.
abbrev pub truthy : Option (List ℕ) → Bool
truthy none = false
truthy (some []) = false
truthy (some (c ∷ s)) = true

-- The model validator: `false` is its `ValueError`.
unfoldable pub auth_semantic_check : BaseAuthComponent → Bool
auth_semantic_check a =
    (truthy a.password || truthy a.token) && not (truthy a.refresh_digest && not (truthy a.token))

unfoldable pub auth_logical_check : AuthFlag → BaseAuthComponent → Bool
auth_logical_check authorization a =
    truthy a.password && not (truthy a.token || truthy a.refresh_digest)
auth_logical_check authentication a =
    not (truthy a.password) && truthy a.token && truthy a.refresh_digest

pub record BaseFileComponent : Type 0 where
  pub subject_file : Text
  pub subject_file_owner : Text
  pub cursor_position : Option ℕ
  pub chunk_size : ℕ
  pub write_data : Option Bytes
  pub cursor_bitfield : ℕ
  pub end_operation : Bool

-- `bits & ~CURSOR_BITS_CHECK` is 0 where `bits` has no other bit: `false` is the `ValueError`.
unfoldable pub validate_cursor_bitfield : ℕ → Bool
validate_cursor_bitfield bits = bit_and bits cursor_bits_check == bits

-- `relative_pathlike`
abbrev pub relative_pathlike : BaseFileComponent → Text
relative_pathlike f = f.subject_file_owner ++ b'/' ∷ f.subject_file
