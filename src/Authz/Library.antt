-- ===== src/Authz/Library.antt =====
-- What the user manager takes from Python's standard library, and its checks on names and
-- passwords (the static methods of `UserManager`).
use custom_file_operation_pr.Prelude.{
  ℕ, ◌==◌, if◌then◌else◌, Bool, false, ◌&&◌, ◌||◌, Option, none, some, [], ◌∷◌, all, Text, Bytes,
  text_eq, strip,
}

-- `pbkdf2_hmac('sha256', password.encode('utf-8'), salt, iterations=100_000)`, and `str.isalnum` on
-- one character, on which the regular expressions' `\w` rests.
pub record Library : Type 0 where
  pub pbkdf2_hmac : Text → Bytes → Bytes
  pub is_alnum : ℕ → Bool

module _ (lib : Library) where
  -- `\w`
  abbrev pub is_word : ℕ → Bool
  is_word c = lib.is_alnum c || c == b'_'

  abbrev pub ends_with_word : Text → Bool
  ends_with_word [] = false
  ends_with_word (c ∷ []) = is_word c
  ends_with_word (c ∷ d ∷ s) = ends_with_word (d ∷ s)

  -- `^[\w](?:[\w\-]*[\w])?$`, on a text that ends in no line break
  unfoldable pub matches_username : Text → Bool
  matches_username [] = false
  matches_username (c ∷ s) =
      is_word c && ends_with_word (c ∷ s) && all (λ d. is_word d || d == b'-') s

  -- The name that is used from here on, or `none` for the exception.
  unfoldable pub check_username_validity : Text → Option Text
  unfolding matches_username
  check_username_validity username =
      if matches_username (strip username) then some (strip username) else none

  -- The hash that is stored with `salt`.
  unfoldable pub generate_password_hash : Text → Bytes → Bytes
  generate_password_hash password salt = lib.pbkdf2_hmac (strip password) salt

  unfoldable pub verify_password_hash : Text → Bytes → Bytes → Bool
  verify_password_hash password password_hash salt =
      text_eq (lib.pbkdf2_hmac password salt) password_hash
