-- ===== src/Sessions/Store.antt =====
-- `LocalLfsSessionStore` of src/sessions.rs. Each operation holds the lock of the store, so it is one
-- step. The clock, the tokens and nonces, and the answers of the database are arguments; an operation
-- of the database that fails leaves the table as it is.
pub mod Cases
pub mod Events
pub mod Agreement
pub mod Limits
pub mod Ledger
pub mod Retry
pub mod Window
pub mod Advice
mod Tests
use lfs_cloud.Prelude.{
  ℕ, zero, suc, ◌+◌, Bool, true, false, not, Option, none, some, [], ◌∷◌, ◌++◌, List, ◌==◌, ltb,
  if◌then◌else◌, length, is_empty, unwrap_or, Result, ok, err, ◌>>=◌, ◌>>◌, guard,
}
use lfs_cloud.Prelude.Text.{Text, codes, trim}
use lfs_cloud.Prelude.Map.{Map, retain, get, remove, insert, contains_key}
use lfs_cloud.Errors.{ServerError, invalid_request, internal, invalid_configuration}
use lfs_cloud.GitHubAuth.{GitHubPersonalAccessToken}
use lfs_cloud.Sessions.{LfsSessionToken, LfsSessionMetadata}
use lfs_cloud.Sessions.Clock.{checked_add, unix_timestamp_seconds_i64}
use lfs_cloud.Sessions.Admission.{
  LfsSessionRecord, LfsSessionPrincipal, principal_of, principal_key, SessionStoreLimits, is_active,
  prune_recent_issuances, enforce_session_admission,
}
use lfs_cloud.Sessions.TokenKey.{LfsSessionTokenKey, token_key, to_hex}
use lfs_cloud.Sessions.Durable.{
  Table, SessionCodec, unexpired, upsert, delete_session, stored_session, load_sessions,
}

pub record RepositoryUser : Type 0 where
  pub provider_id : Text
  pub login : Text
  pub stable_id : Option Text

pub record IssuedLfsSession : Type 0 where
  pub token : LfsSessionToken
  pub metadata : LfsSessionMetadata

-- The state under the lock, and the table of a durable store.
pub record Store : Type 0 where
  pub sessions : Map LfsSessionTokenKey LfsSessionRecord
  pub recent_issuances : Map LfsSessionPrincipal (List ℕ)
  pub durable : Option Table

unfoldable pub scopes_of : List Text → List Text
scopes_of [] = []
scopes_of (scope ∷ scopes) =
    let rest = scopes_of scopes in if is_empty (trim scope) then rest else trim scope ∷ rest

-- `LfsSessionMetadata::new`
abbrev pub metadata_of : RepositoryUser → List Text → ℕ → ℕ → LfsSessionMetadata
metadata_of user scopes issued_at expires_at = record {
  provider_id = user.provider_id;
  login = user.login;
  stable_id = user.stable_id;
  granted_scopes = scopes_of scopes;
  issued_at = issued_at;
  expires_at = expires_at;
}

-- A request for a session: its arguments, and what the world answers to it. `generate` gives the
-- token of each attempt.
pub record Issue : Type 0 where
  pub now : ℕ
  pub user : RepositoryUser
  pub granted_scopes : List Text
  pub ttl : ℕ
  pub github_personal_access_token : Option GitHubPersonalAccessToken
  pub generate : ℕ → LfsSessionToken
  pub random : Option (List ℕ)
  pub deleted : Result ServerError (Unit {0})
  pub recorded : Result ServerError (Unit {0})

abbrev pub max_lfs_session_token_generation_attempts : ℕ
max_lfs_session_token_generation_attempts = 8

abbrev pub delete_expired :
    ℕ → Result ServerError (Unit {0}) → Option Table → Result ServerError (Option Table)
delete_expired now answer none = ok none
delete_expired now answer (some table) =
    unix_timestamp_seconds_i64 now >>= λ seconds. answer >> ok (some (unexpired seconds table))

abbrev pub delete_durable :
    Text → Result ServerError (Unit {0}) → Option Table → Result ServerError (Option Table)
delete_durable token_sha256 answer none = ok none
delete_durable token_sha256 answer (some table) =
    answer >> ok (some (delete_session token_sha256 table))

unfoldable pub prune_expired_sessions :
    ℕ → Map LfsSessionTokenKey LfsSessionRecord → Map LfsSessionTokenKey LfsSessionRecord
prune_expired_sessions now sessions = retain (is_active now) sessions

-- `recent_issuances.entry(principal).or_default().push_back(issued_at)`
abbrev pub push_back :
    LfsSessionPrincipal → ℕ → Map LfsSessionPrincipal (List ℕ) → Map LfsSessionPrincipal (List ℕ)
push_back principal issued_at recent =
    insert principal (unwrap_or (get principal recent) [] ++ issued_at ∷ []) recent

abbrev pub active_session :
    ℕ
    → LfsSessionTokenKey
    → Map LfsSessionTokenKey LfsSessionRecord
    → Option LfsSessionRecord
    → Option LfsSessionRecord × Map LfsSessionTokenKey LfsSessionRecord
active_session now key sessions none = (none, sessions)
active_session now key sessions (some r) =
    if is_active now r then (some r, sessions) else (none, remove key sessions)

unfoldable pub take_active_session :
    ℕ
    → LfsSessionTokenKey
    → Map LfsSessionTokenKey LfsSessionRecord
    → Option LfsSessionRecord × Map LfsSessionTokenKey LfsSessionRecord
take_active_session now key sessions = active_session now key sessions (get key sessions)

module _ (sha256 : Text → List ℕ) where
  -- `LfsSessionTokenKey::from_token`
  abbrev pub key_of : LfsSessionToken → LfsSessionTokenKey
  key_of token = record { digest = sha256 token.secret }

  unfoldable pub verify_record : ℕ → LfsSessionToken → Store → Option LfsSessionRecord × Store
  verify_record now token store =
      let (found, sessions) = take_active_session now (key_of token) store.sessions in
      (found, record store { sessions = sessions })

  abbrev pub was_active : ℕ → Option LfsSessionRecord → Bool
  was_active now none = false
  was_active now (some r) = is_active now r

  abbrev pub remove_session :
      ℕ
      → LfsSessionTokenKey
      → Store
      → Result ServerError (Option Table)
      → Result ServerError Bool × Store
  remove_session now key store (err e) = (err e, store)
  remove_session now key store (ok durable) = (
    ok (was_active now (get key store.sessions)),
    record store { sessions = remove key store.sessions; durable = durable },
  )

  unfoldable pub revoke :
      ℕ → Result ServerError (Unit {0}) → LfsSessionToken → Store → Result ServerError Bool × Store
  revoke now deleted token store =
      let key = key_of token in
      remove_session now key store (delete_durable (to_hex key) deleted store.durable)

  module _ (codec : SessionCodec) where
    abbrev pub record_durable :
        Issue
        → LfsSessionTokenKey
        → LfsSessionRecord
        → Option Table
        → Result ServerError (Option Table)
    record_durable request key r none = ok none
    record_durable request key r (some table) = stored_session codec request.random key r >>= λ row.
        request.recorded >> ok (some (upsert row table))

    abbrev pub insert_session :
        LfsSessionToken
        → LfsSessionRecord
        → Store
        → Result ServerError (Option Table)
        → Result ServerError IssuedLfsSession × Store
    insert_session token r store (err e) = (err e, store)
    insert_session token r store (ok durable) = (
      ok (record { token = token; metadata = r.metadata }),
      record {
        sessions = insert (key_of token) r store.sessions;
        recent_issuances =
            push_back (principal_of r.metadata) r.metadata.issued_at store.recent_issuances;
        durable = durable;
      },
    )

    -- The loop over the attempts that are left, the next of which is the i-th.
    unfoldable pub issue_token :
        Issue → LfsSessionRecord → Store → ℕ → ℕ → Result ServerError IssuedLfsSession × Store
    issue_token request r store zero i =
        (err (internal (codes "failed to generate a unique lfs session token")), store)
    issue_token request r store (suc attempts) i =
        let rest = issue_token request r store attempts (i + 1) in
        let token = request.generate i in
        let issued =
          insert_session token r store (record_durable request (key_of token) r store.durable) in
        if contains_key (key_of token) store.sessions then rest else issued

    abbrev pub after_enforcement :
        Issue
        → LfsSessionRecord
        → Store
        → Result ServerError (Unit {0})
        → Result ServerError IssuedLfsSession × Store
    after_enforcement request r store (err e) = (err e, store)
    after_enforcement request r store (ok _) =
        issue_token request r store max_lfs_session_token_generation_attempts 0

    abbrev pub after_delete :
        SessionStoreLimits
        → Issue
        → LfsSessionRecord
        → Store
        → Result ServerError (Option Table)
        → Result ServerError IssuedLfsSession × Store
    after_delete limits request r store (err e) = (err e, store)
    after_delete limits request r store (ok durable) =
        after_enforcement request r (record store { durable = durable })
          (enforce_session_admission store.sessions store.recent_issuances (principal_of r.metadata)
            request.now limits)

    abbrev pub issue_until :
        SessionStoreLimits → Issue → Store → Option ℕ → Result ServerError IssuedLfsSession × Store
    issue_until limits request store none =
        (err (invalid_request (codes "lfs session expiration timestamp overflowed")), store)
    issue_until limits request store (some expires_at) =
        let r : LfsSessionRecord = record {
          metadata = metadata_of request.user request.granted_scopes request.now expires_at;
          github_personal_access_token = request.github_personal_access_token;
        } in
        after_delete limits request r
          (record {
            sessions = prune_expired_sessions request.now store.sessions;
            recent_issuances =
                prune_recent_issuances request.now limits.issuance_window store.recent_issuances;
            durable = store.durable;
          })
          (delete_expired request.now request.deleted store.durable)

    unfoldable pub issue_session_record :
        SessionStoreLimits → Issue → Store → Result ServerError IssuedLfsSession × Store
    issue_session_record limits request store =
        let issued = issue_until limits request store (checked_add request.now request.ttl) in
        if request.ttl == 0
        then (err (invalid_request (codes "lfs session ttl must be greater than zero")), store)
        else issued

-- `LocalLfsSessionStore::len`
unfoldable pub store_len : ℕ → Store → ℕ × Store
store_len now store =
    let sessions = prune_expired_sessions now store.sessions in
    (length sessions, record store { sessions = sessions })

module _ (codec : SessionCodec) where
  -- Whether the encryption is set up, the expired rows are deleted, and the others read, as the
  -- database answers. The table is that of before, or without its expired rows.
  unfoldable pub open_durable :
      ℕ
      → List ℕ
      → Result ServerError (Unit {0})
      → Result ServerError (Unit {0})
      → Result ServerError (Unit {0})
      → Table
      → Result ServerError Store
  open_durable now encryption_secret protector deleted loaded table = do
    guard (not (is_empty encryption_secret))
        (invalid_configuration (codes "durable lfs session encryption secret must not be empty"))
    _ ← protector
    seconds ← unix_timestamp_seconds_i64 now
    _ ← deleted
    let rest : Table = unexpired seconds table
    _ ← loaded
    sessions ← load_sessions codec now rest
    guard (not (ltb 1024 (length sessions)))
        (internal (codes "durable lfs session count exceeds the configured in-process limit"))
    ok (record { sessions = sessions; recent_issuances = []; durable = some rest })
