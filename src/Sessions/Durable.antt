-- ===== src/Sessions/Durable.antt =====
-- Sessions in the metadata database: `DurableLfsSessionStore` and `SessionTokenProtector` of
-- src/sessions.rs, and the table of src/metadata/sessions.rs. AES-GCM and JSON are arguments.
pub mod RoundTrip
use lfs_cloud.Prelude.{
  ℕ, ◌*◌, Bool, true, false, not, Option, none, some, [], ◌∷◌, List, ◌==◌, leb, ltb, if◌then◌else◌,
  length, Result, ok, err, ◌>>=◌, ◌>>◌, guard, ok_or,
}
use lfs_cloud.Prelude.Text.{Text, codes, text_eq}
use lfs_cloud.Prelude.Utf8.{as_bytes, from_utf8}
use lfs_cloud.Prelude.Map.{Map, insert}
use lfs_cloud.Errors.{ServerError, internal}
use lfs_cloud.GitHubAuth.{GitHubPersonalAccessToken, github_pat_from_secret}
use lfs_cloud.Sessions.{LfsSessionMetadata}
use lfs_cloud.Sessions.Clock.{nanos_per_second, checked_add, unix_timestamp_seconds_i64}
use lfs_cloud.Sessions.Admission.{LfsSessionRecord}
use lfs_cloud.Sessions.TokenKey.{
  LfsSessionTokenKey, token_key, invalid_durable_session, from_hex, to_hex,
}

-- `negsuc n` is -(n + 1).
pub data ℤ : Type 0 where
  pos negsuc : ℕ → ℤ

pub record MetadataSessionRecord : Type 0 where
  pub token_sha256 : Text
  pub provider_id : Text
  pub login : Text
  pub stable_id : Option Text
  pub granted_scopes_json : Text
  pub issued_at_unix_seconds : ℤ
  pub expires_at_unix_seconds : ℤ
  pub provider_access_token_ciphertext : Option (List ℕ)
  pub provider_access_token_nonce : Option (List ℕ)

-- The rows of the table, whose key is `token_sha256`.
abbrev pub Table : Type 0
Table = List MetadataSessionRecord

abbrev pub is_after : ℤ → ℕ → Bool
is_after (pos t) now = ltb now t
is_after (negsuc t) now = false

-- The rows with `expires_at_unix_seconds > ?1`, and so what `delete_expired_sessions` leaves.
unfoldable pub unexpired : ℕ → Table → Table
unexpired now [] = []
unexpired now (row ∷ rows) =
    let rest = unexpired now rows in
    if is_after row.expires_at_unix_seconds now then row ∷ rest else rest

-- `record_session`: on a conflict the row is updated in its place.
unfoldable pub upsert : MetadataSessionRecord → Table → Table
upsert row [] = row ∷ []
upsert row (other ∷ rows) =
    let rest = upsert row rows in
    if text_eq other.token_sha256 row.token_sha256 then row ∷ rows else other ∷ rest

unfoldable pub delete_session : Text → Table → Table
delete_session token_sha256 [] = []
delete_session token_sha256 (row ∷ rows) =
    let rest = delete_session token_sha256 rows in
    if text_eq row.token_sha256 token_sha256 then rest else row ∷ rest

-- AES-256-GCM under the key of the server, with nonce, associated data and text, and the JSON forms.
pub record SessionCodec : Type 0 where
  pub seal : List ℕ → List ℕ → List ℕ → Option (List ℕ)
  pub unseal : List ℕ → List ℕ → List ℕ → Option (List ℕ)
  pub scopes_to_json : List Text → Option Text
  pub scopes_from_json : Text → Option (List Text)
  pub associated_data_to_json :
      Text × Text × Text × Option Text × List Text × ℕ × ℕ → Option (List ℕ)

module _ (codec : SessionCodec) where
  unfoldable pub session_associated_data :
      LfsSessionTokenKey → LfsSessionMetadata → Result ServerError (List ℕ)
  session_associated_data key metadata = do
    issued ← unix_timestamp_seconds_i64 metadata.issued_at
    expires ← unix_timestamp_seconds_i64 metadata.expires_at
    ok_or
        (codec.associated_data_to_json (
          to_hex key,
          metadata.provider_id,
          metadata.login,
          metadata.stable_id,
          metadata.granted_scopes,
          issued,
          expires,
        ))
        (internal (codes "failed to encode durable lfs session authenticated metadata"))

  -- The random bytes are `none` if the system gives none.
  unfoldable pub encrypt :
      Option (List ℕ)
      → LfsSessionTokenKey
      → LfsSessionMetadata
      → GitHubPersonalAccessToken
      → Result ServerError (List ℕ × List ℕ)
  encrypt random key metadata access_token = do
    nonce ←
        ok_or random (internal (codes "failed to generate durable lfs session encryption nonce"))
    associated_data ← session_associated_data key metadata
    ciphertext ←
        ok_or (codec.seal nonce associated_data (as_bytes access_token.secret))
          (internal (codes "failed to encrypt durable lfs session provider token"))
    ok (ciphertext, nonce)

  abbrev pub or_invalid :
      Result ServerError GitHubPersonalAccessToken → Result ServerError GitHubPersonalAccessToken
  or_invalid (ok token) = ok token
  or_invalid (err _) = err (invalid_durable_session (codes "decrypted provider token is invalid"))

  unfoldable pub decrypt :
      LfsSessionTokenKey
      → LfsSessionMetadata
      → List ℕ
      → List ℕ
      → Result ServerError GitHubPersonalAccessToken
  decrypt key metadata ciphertext nonce = do
    guard (length nonce == 12)
        (invalid_durable_session (codes "stored provider token nonce has invalid length"))
    associated_data ← session_associated_data key metadata
    plaintext ← ok_or (codec.unseal nonce associated_data ciphertext) (
        invalid_durable_session
          (codes "stored provider token could not be authenticated or decrypted"))
    token ←
        ok_or (from_utf8 plaintext)
          (invalid_durable_session (codes "decrypted provider token is not valid UTF-8"))
    or_invalid (github_pat_from_secret token)

  abbrev pub protected_token :
      Option (List ℕ)
      → LfsSessionTokenKey
      → LfsSessionMetadata
      → Option GitHubPersonalAccessToken
      → Result ServerError (Option (List ℕ) × Option (List ℕ))
  protected_token random key metadata none = ok (none, none)
  protected_token random key metadata (some token) =
      encrypt random key metadata token >>= λ (sealed : List ℕ × List ℕ).
      ok (some sealed.0, some sealed.1)

  -- The row that `DurableLfsSessionStore::record_session` writes.
  unfoldable pub stored_session :
      Option (List ℕ)
      → LfsSessionTokenKey
      → LfsSessionRecord
      → Result ServerError MetadataSessionRecord
  stored_session random key r = do
    sealed ← protected_token random key r.metadata r.github_personal_access_token
    scopes ←
        ok_or (codec.scopes_to_json r.metadata.granted_scopes)
          (internal (codes "failed to encode lfs session scopes for durable storage"))
    issued ← unix_timestamp_seconds_i64 r.metadata.issued_at
    expires ← unix_timestamp_seconds_i64 r.metadata.expires_at
    ok (record {
      token_sha256 = to_hex key;
      provider_id = r.metadata.provider_id;
      login = r.metadata.login;
      stable_id = r.metadata.stable_id;
      granted_scopes_json = scopes;
      issued_at_unix_seconds = pos issued;
      expires_at_unix_seconds = pos expires;
      provider_access_token_ciphertext = sealed.0;
      provider_access_token_nonce = sealed.1;
    })

  unfoldable pub system_time_from_unix_seconds : ℤ → Result ServerError ℕ
  system_time_from_unix_seconds (negsuc _) =
      err (invalid_durable_session (codes "stored session timestamp is negative"))
  system_time_from_unix_seconds (pos seconds) =
      ok_or (checked_add 0 (seconds * nanos_per_second))
        (invalid_durable_session (codes "stored session timestamp overflowed"))

  abbrev pub restored_token :
      LfsSessionTokenKey
      → LfsSessionMetadata
      → Option (List ℕ)
      → Option (List ℕ)
      → Result ServerError (Option GitHubPersonalAccessToken)
  restored_token key metadata (some ciphertext) (some nonce) =
      decrypt key metadata ciphertext nonce >>= λ token. ok (some token)
  restored_token key metadata none none = ok none
  restored_token key metadata _ _ =
      err (invalid_durable_session (codes "stored provider token protection fields are incomplete"))

  unfoldable pub restore_session :
      MetadataSessionRecord → Result ServerError (LfsSessionTokenKey × LfsSessionRecord)
  restore_session stored = do
    key ← from_hex stored.token_sha256
    granted_scopes ←
        ok_or (codec.scopes_from_json stored.granted_scopes_json)
          (invalid_durable_session (codes "stored granted scopes are not valid JSON"))
    issued_at ← system_time_from_unix_seconds stored.issued_at_unix_seconds
    expires_at ← system_time_from_unix_seconds stored.expires_at_unix_seconds
    guard (ltb issued_at expires_at)
        (invalid_durable_session (codes "stored session expiration does not follow its issue time"))
    let metadata : LfsSessionMetadata = record {
      provider_id = stored.provider_id;
      login = stored.login;
      stable_id = stored.stable_id;
      granted_scopes = granted_scopes;
      issued_at = issued_at;
      expires_at = expires_at;
    }
    token ←
        restored_token key metadata stored.provider_access_token_ciphertext
          stored.provider_access_token_nonce
    ok (key, record { metadata = metadata; github_personal_access_token = token })

  -- The rows are collected into a map, in which a later entry replaces an earlier one.
  unfoldable pub restore_sessions :
      Table
      → Map LfsSessionTokenKey LfsSessionRecord
      → Result ServerError (Map LfsSessionTokenKey LfsSessionRecord)
  restore_sessions [] sessions = ok sessions
  restore_sessions (row ∷ rows) sessions =
      restore_session row >>= λ (entry : LfsSessionTokenKey × LfsSessionRecord).
      restore_sessions rows (insert entry.0 entry.1 sessions)

  unfoldable pub load_sessions :
      ℕ → Table → Result ServerError (Map LfsSessionTokenKey LfsSessionRecord)
  load_sessions now table = do
    seconds ← unix_timestamp_seconds_i64 now
    restore_sessions (unexpired seconds table) []
