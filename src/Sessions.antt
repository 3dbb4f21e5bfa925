-- ===== src/Sessions.antt =====
-- src/sessions.rs: the secret of a session token, and what is known of a session.
pub mod Clock
pub mod Admission
pub mod TokenKey
pub mod Durable
pub mod Store
use lfs_cloud.Prelude.{
  ℕ, Bool, ◌||◌, not, Option, List, ◌==◌, ltb, if◌then◌else◌, in_range, any, is_empty, Result, ok,
  err,
}
use lfs_cloud.Prelude.Text.{Text, codes, len, trim, is_whitespace}
use lfs_cloud.Errors.{ServerError, invalid_request}

pub record LfsSessionToken : Type 0 where
  pub secret : Text

abbrev pub max_lfs_session_token_len : ℕ
max_lfs_session_token_len = 1024

-- char::is_control, the general category Cc
abbrev pub is_control : ℕ → Bool
is_control c = in_range 0x0 0x1f c || in_range 0x7f 0x9f c

unfoldable pub validate_lfs_session_secret : Text → Result ServerError Text
validate_lfs_session_secret value =
    let trimmed = trim value in
    if ltb max_lfs_session_token_len (len value)
    then err (invalid_request (codes "lfs session token must not exceed 1024 bytes"))
    else if is_empty trimmed || not (len trimmed == len value)
    then err (invalid_request (codes "lfs session token must not be blank or padded"))
    else if any (λ c. is_whitespace c || is_control c) value
    then err (
        invalid_request
          (codes "lfs session token must not contain whitespace or control characters"))
    else ok value

-- `LfsSessionToken::from_secret`
abbrev pub token_of : Result ServerError Text → Result ServerError LfsSessionToken
token_of (err e) = err e
token_of (ok secret) = ok (record { secret = secret })

unfoldable pub from_secret : Text → Result ServerError LfsSessionToken
from_secret secret = token_of (validate_lfs_session_secret secret)

-- `LfsSessionMetadata`, with what the server reads of it
pub record LfsSessionMetadata : Type 0 where
  pub provider_id : Text
  pub login : Text
  pub stable_id : Option Text
  pub granted_scopes : List Text
  pub issued_at : ℕ
  pub expires_at : ℕ
