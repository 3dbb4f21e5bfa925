-- ===== src/Server/Batch/Credentials/RoundTrip.antt =====
-- The header that batch actions carry authenticates the session it was made for.
use lfs_cloud.Prelude.{ℕ, ◌≡◌, refl, true, false, none, some, ◌∷◌, ◌++◌, List, all, is_empty, ok}
use lfs_cloud.Prelude.Text.{
  Text, codes, trim, is_whitespace, eq_ignore_ascii_case, split_once, text_eq, to_lowercase,
}
use lfs_cloud.Prelude.Text.Trim.{solid, trim-append, trim_start-space}
use lfs_cloud.Prelude.Utf8.{
  as_bytes, from_utf8, encode_char, is_scalar, is_byte, from_utf8-as_bytes, as_bytes-bytes,
}
use lfs_cloud.Sessions.{LfsSessionToken, from_secret}
use lfs_cloud.Server.Batch.Credentials.{
  Base64, default_git_credential_username, split_at_whitespace, authorization_credentials,
  lfs_session_token_from_basic_credentials, lfs_session_token_from_authorization_header,
  basic_authorization,
}

-- The credentials of a header `Basic e`.
module _ (e : Text) (filled : is_empty e ≡ false) (visible : all solid e ≡ true) where
  trim-basic : trim (codes "Basic " ++ e) ≡ codes "Basic " ++ e
  unfolding is_whitespace
  trim-basic = trim-append b'B' (codes "asic ") e refl filled visible

  split_at_whitespace-basic : split_at_whitespace (codes "Basic " ++ e) ≡ (codes "Basic", 0x20 ∷ e)
  unfolding split_at_whitespace is_whitespace
  split_at_whitespace-basic = refl

  authorization_credentials-bearer :
      authorization_credentials (codes "Basic " ++ e) (codes "Bearer") ≡ none
  unfolding authorization_credentials eq_ignore_ascii_case text_eq to_lowercase
  authorization_credentials-bearer = rw (trim-basic, split_at_whitespace-basic) refl

  authorization_credentials-basic :
      authorization_credentials (codes "Basic " ++ e) (codes "Basic") ≡ some e
  unfolding authorization_credentials eq_ignore_ascii_case text_eq to_lowercase
  authorization_credentials-basic =
      rw (trim-basic, split_at_whitespace-basic, trim_start-space e filled visible, filled) refl

abbrev payload : LfsSessionToken → Text
payload token = default_git_credential_username ++ codes ":" ++ token.secret

split_once-payload :
    (token : LfsSessionToken)
    → split_once b':' (payload token) ≡ some (default_git_credential_username, token.secret)
unfolding split_once
split_once-payload token = refl

text_eq-username : text_eq default_git_credential_username default_git_credential_username ≡ true
unfolding text_eq
text_eq-username = refl

lfs_session_token-payload :
    (base64 : Base64) (token : LfsSessionToken) (e : Text)
    → from_secret token.secret ≡ ok token
    → base64.decode e ≡ some (as_bytes (payload token))
    → from_utf8 (as_bytes (payload token)) ≡ some (payload token)
    → lfs_session_token_from_basic_credentials base64 e ≡ ok token
unfolding lfs_session_token_from_basic_credentials
lfs_session_token-payload base64 token e valid decoded utf8 =
    rw (decoded, utf8, split_once-payload token, text_eq-username, valid) refl

filled-payload :
    (base64 : Base64) (token : LfsSessionToken)
    → ((b : ℕ) (bytes : List ℕ) → is_empty (base64.encode (b ∷ bytes)) ≡ false)
    → is_empty (base64.encode (as_bytes (payload token))) ≡ false
unfolding as_bytes encode_char
filled-payload base64 token filled = filled _ _

-- The header that a batch response advertises for a session, sent back as it is, is read as the
-- token of that session. The hypotheses on base64 are that it decodes what it encodes, that its
-- alphabet has no white space, and that it encodes a byte or more as a character or more.
pub lfs_session_token-basic_authorization :
    (base64 : Base64) (token : LfsSessionToken)
    → from_secret token.secret ≡ ok token
    → all is_scalar token.secret ≡ true
    → ((bytes : List ℕ)
        → all is_byte bytes ≡ true
        → base64.decode (base64.encode bytes) ≡ some bytes)
    → ((bytes : List ℕ) → all is_byte bytes ≡ true → all solid (base64.encode bytes) ≡ true)
    → ((b : ℕ) (bytes : List ℕ) → is_empty (base64.encode (b ∷ bytes)) ≡ false)
    → lfs_session_token_from_authorization_header base64
        (some (some (basic_authorization base64 token)))
      ≡ ok token
unfolding lfs_session_token_from_authorization_header basic_authorization
lfs_session_token-basic_authorization base64 token valid scalars inverse visible filled =
    let bytes = as_bytes (payload token) in
    let e = base64.encode bytes in
    let are_bytes = as_bytes-bytes (payload token) scalars in
    let e_filled = filled-payload base64 token filled in
    let e_visible = visible bytes are_bytes in
    rw
      (
        authorization_credentials-bearer e e_filled e_visible,
        authorization_credentials-basic e e_filled e_visible,
      )
      (lfs_session_token-payload base64 token e valid (inverse bytes are_bytes)
        (from_utf8-as_bytes (payload token) scalars))
