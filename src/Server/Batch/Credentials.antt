-- ===== src/Server/Batch/Credentials.antt =====
-- The session token of a request, src/server/batch.rs: read from the header `Authorization`, and
-- written into the actions of a batch response.
pub mod RoundTrip
use lfs_cloud.Prelude.{
  ℕ, Bool, true, false, not, Option, none, some, [], ◌∷◌, ◌++◌, List, map, if◌then◌else◌, is_empty,
  is_some, Result, ok, err, ◌>>=◌, guard, ◌>>◌, ok_or,
}
use lfs_cloud.Prelude.Text.{
  Text, codes, trim, trim_start, is_whitespace, eq_ignore_ascii_case, split_once, text_eq,
}
use lfs_cloud.Prelude.BTreeMap.{BTreeMap, insert}
use lfs_cloud.Prelude.Utf8.{as_bytes, from_utf8}
use lfs_cloud.Errors.{ServerError, unauthorized}
use lfs_cloud.Sessions.{LfsSessionToken, from_secret}
use lfs_cloud.Lfs.Batch.{LfsBatchAction, LfsBatchObjectResponse, LfsBatchResponse}

-- `BASE64_STANDARD` of the crate base64
pub record Base64 : Type 0 where
  pub encode : List ℕ → Text
  pub decode : Text → Option (List ℕ)

abbrev pub default_git_credential_username : Text
default_git_credential_username = codes "lfscloud"

abbrev pub before_char : ℕ → Text × Text → Text × Text
before_char c (head, rest) = (c ∷ head, rest)

-- `value.split_at(value.find(char::is_whitespace).unwrap_or(value.len()))`
unfoldable pub split_at_whitespace : Text → Text × Text
split_at_whitespace [] = ([], [])
split_at_whitespace (c ∷ s) =
    let rest = split_at_whitespace s in if is_whitespace c then ([], c ∷ s) else before_char c rest

unfoldable pub authorization_credentials : Text → Text → Option Text
authorization_credentials value scheme =
    let (actual_scheme, rest) = split_at_whitespace (trim value) in
    let credentials = trim_start rest in
    if not (eq_ignore_ascii_case actual_scheme scheme)
    then none
    else if is_empty credentials
    then none
    else some credentials

-- `map_err` to an unauthorized request
abbrev pub or_unauthorized :
    Result ServerError LfsSessionToken → Text → Result ServerError LfsSessionToken
or_unauthorized (ok token) reason = ok token
or_unauthorized (err e) reason = err (unauthorized reason)

abbrev pub authorize_action : Text → LfsBatchAction → LfsBatchAction
authorize_action authorization action = record {
  href = action.href;
  header = insert (codes "Authorization") authorization action.header;
  expires_at = action.expires_at;
  expires_in = action.expires_in;
}

abbrev pub authorize_actions : Text → LfsBatchObjectResponse → LfsBatchObjectResponse
authorize_actions authorization object = record {
  oid = object.oid;
  size = object.size;
  authenticated = object.authenticated;
  actions =
      map (λ (e : Text × LfsBatchAction). (e.0, authorize_action authorization e.1)) object.actions;
  error = object.error;
}

module _ (base64 : Base64) where
  unfoldable pub lfs_session_token_from_basic_credentials :
      Text → Result ServerError LfsSessionToken
  lfs_session_token_from_basic_credentials credentials = do
    bytes ←
        ok_or (base64.decode credentials)
          (unauthorized (codes "basic authorization credentials were not valid base64"))
    decoded ←
        ok_or (from_utf8 bytes)
          (unauthorized (codes "basic authorization credentials were not valid UTF-8"))
    (username, password) ←
        ok_or (split_once b':' decoded)
          (unauthorized (codes "basic authorization credentials were malformed"))
    guard (text_eq username default_git_credential_username)
        (unauthorized (codes "basic authorization username was not accepted"))
    or_unauthorized (from_secret password)
        (codes "basic authorization did not contain a valid lfs session token")

  abbrev pub basic_token : Option Text → Result ServerError LfsSessionToken
  basic_token none = err (unauthorized (codes "unsupported authorization scheme"))
  basic_token (some credentials) = lfs_session_token_from_basic_credentials credentials

  abbrev pub token_by_scheme : Text → Option Text → Result ServerError LfsSessionToken
  token_by_scheme value (some token) =
      or_unauthorized (from_secret token)
        (codes "bearer authorization did not contain a valid lfs session token")
  token_by_scheme value none = basic_token (authorization_credentials value (codes "Basic"))

  -- The argument is what `headers.get(AUTHORIZATION)` gives: no header, or the header with what
  -- `to_str` makes of its value.
  unfoldable pub lfs_session_token_from_authorization_header :
      Option (Option Text) → Result ServerError LfsSessionToken
  lfs_session_token_from_authorization_header header = do
    header_value ← ok_or header (unauthorized (codes "missing authorization header"))
    value ← ok_or header_value (unauthorized (codes "authorization header is not valid UTF-8"))
    token_by_scheme value (authorization_credentials value (codes "Bearer"))

  -- `authenticate_lfs_session`; `verify_record` is the one of the session store.
  unfoldable pub authenticate_lfs_session :
      {Record : Type 0}
      → (LfsSessionToken → Option Record)
      → Option (Option Text)
      → Result ServerError (LfsSessionToken × Record)
  authenticate_lfs_session verify_record header = do
    token ← lfs_session_token_from_authorization_header header
    session ←
        ok_or (verify_record token) (unauthorized (codes "invalid or expired lfs session token"))
    ok (token, session)

  unfoldable pub basic_authorization : LfsSessionToken → Text
  basic_authorization token =
      codes "Basic "
      ++ base64.encode (as_bytes (default_git_credential_username ++ codes ":" ++ token.secret))

  unfoldable pub with_session_action_authorization :
      LfsBatchResponse → LfsSessionToken → LfsBatchResponse
  with_session_action_authorization response token = record {
    transfer = response.transfer;
    objects = map (authorize_actions (basic_authorization token)) response.objects;
  }
