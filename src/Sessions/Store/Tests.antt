-- ===== src/Sessions/Store/Tests.antt =====
-- A session store at work, and the theorems on sessions at it.
use lfs_cloud.Prelude.{ℕ, ◌*◌, ◌≡◌, refl, Option, none, some, [], ◌∷◌, List, ok, err, arith}
use lfs_cloud.Prelude.Text.{Text, codes, text_eq, len, trim, trim_start, is_whitespace}
use lfs_cloud.Prelude.Map.{get, remove, retain}
use lfs_cloud.Prelude.Map.Laws.{length-retain-le}
use lfs_cloud.Prelude.Map.Unique.{filter}
use lfs_cloud.Prelude.Utf8.{as_bytes, encode_char}
use lfs_cloud.Errors.{rate_limited}
use lfs_cloud.GitHubAuth.{github_pat_from_secret, validate_sensitive_github_value}
use lfs_cloud.Sessions.{LfsSessionToken}
use lfs_cloud.Sessions.Clock.{nanos_per_second, unix_timestamp_seconds_i64, retry_after_duration}
use lfs_cloud.Sessions.Admission.{
  LfsSessionRecord, LfsSessionPrincipal, stable_id, principal_eq, principal_key, SessionStoreLimits,
  enforce_session_admission, is_active, has_principal, minimum, retry_after_session_expiry,
  prune_recent_issuances, retain_recent,
}
use lfs_cloud.Sessions.TokenKey.{LfsSessionTokenKey, key_eq, token_key, to_hex}
use lfs_cloud.Sessions.Durable.{
  MetadataSessionRecord, pos, SessionCodec, encrypt, session_associated_data, stored_session,
  restore_session,
}
use lfs_cloud.Sessions.Durable.RoundTrip.{IsFaithful, whole, restore_session-stored_session}
use lfs_cloud.Sessions.Store.{
  Store, Issue, issue_session_record, issue_token, prune_expired_sessions, scopes_of, verify_record,
  take_active_session, store_len,
}
use lfs_cloud.Sessions.Store.Events.{Event, issues, verifies, counts, step, run}
use lfs_cloud.Sessions.Store.Limits.{IsWithin, run-IsWithin}
use lfs_cloud.Sessions.Store.Ledger.{ledger_of, verify_record-ledger_of}
use lfs_cloud.Sessions.Store.Advice.{Passes, enforce_session_admission_after}

abbrev sha256 : Text → List ℕ
sha256 s = s

-- A stand-in for JSON that knows lists of one scope.
abbrev one_scope : List Text → Option Text
one_scope (scope ∷ []) = some scope
one_scope _ = none

abbrev codec : SessionCodec
codec = record {
  seal = λ nonce associated text. some text;
  unseal = λ nonce associated sealed. some sealed;
  scopes_to_json = one_scope;
  scopes_from_json = λ json. some (json ∷ []);
  associated_data_to_json = λ parts. some [];
}

abbrev limits : SessionStoreLimits
limits = record {
  max_sessions = 4;
  max_sessions_per_principal = 1;
  max_issuances_per_window = 2;
  issuance_window = 60 * nanos_per_second;
}

abbrev token : LfsSessionToken
token = record { secret = codes "t0" }

abbrev request : ℕ → Issue
request now = record {
  now = now * nanos_per_second;
  user = record { provider_id = codes "github"; login = codes "ada"; stable_id = some (codes "7") };
  granted_scopes = codes "repo" ∷ [];
  ttl = 10 * nanos_per_second;
  github_personal_access_token = none;
  generate = λ i. token;
  random = none;
  deleted = ok tt;
  recorded = ok tt;
}

abbrev empty : Store
empty = record { sessions = []; recent_issuances = []; durable = some [] }

-- The second request comes too early: the first session has six seconds left.
abbrev events : List Event
events =
    issues (request 100)
    ∷ verifies (103 * nanos_per_second) token
    ∷ issues (request 104)
    ∷ counts (105 * nanos_per_second)
    ∷ []

abbrev store : Store
store = run sha256 codec limits events empty

refused_early :
    (issue_session_record sha256 codec limits (request 104) store).0 ≡ err (rate_limited 6)
unfolding run step issue_session_record issue_token prune_expired_sessions prune_recent_issuances
    retain_recent enforce_session_admission retain get remove verify_record take_active_session
    scopes_of text_eq principal_eq key_eq minimum retry_after_session_expiry retry_after_duration
    len trim trim_start is_whitespace store_len unix_timestamp_seconds_i64 stored_session
refused_early = refl

one_scope_faithful :
    (scopes : List Text) (json : Text)
    → one_scope scopes ≡ some json
    → some (json ∷ []) ≡ some scopes
one_scope_faithful [] json h = cc
one_scope_faithful (scope ∷ []) json h = cc
one_scope_faithful (scope ∷ other ∷ scopes) json h = cc

codec-IsFaithful : IsFaithful codec
codec-IsFaithful = record {
  unseal-seal = λ nonce associated text sealed h. cc;
  scopes_from-to = one_scope_faithful;
}

empty-IsWithin : IsWithin limits empty
unfolding retain
empty-IsWithin = record { in_total = omega arith; for_each = λ p. omega arith; in_window = tt }

run-IsWithin_example : IsWithin limits store
run-IsWithin_example = run-IsWithin limits sha256 codec events empty (omega arith) empty-IsWithin

verify_record-ledger_of_example :
    (verify_record sha256 (106 * nanos_per_second) token store).0
    ≡ filter
        (is_active (106 * nanos_per_second))
        (get (record { digest = codes "t0" }) (ledger_of sha256 codec limits events empty []))
verify_record-ledger_of_example =
    verify_record-ledger_of sha256 codec limits 0 (106 * nanos_per_second) events empty [] token
      (omega arith) (record { distinct = tt; same = λ key t h. refl }) (omega arith)

abbrev full : Store
full = record {
  sessions =
      (
        record { digest = codes "t0" },
        record {
          metadata = record {
            provider_id = codes "github";
            login = codes "ada";
            stable_id = some (codes "7");
            granted_scopes = [];
            issued_at = 100 * nanos_per_second;
            expires_at = 110 * nanos_per_second;
          };
          github_personal_access_token = none;
        },
      )
      ∷ [];
  recent_issuances = [];
  durable = none;
}

abbrev ada : LfsSessionPrincipal
ada = record { provider_id = codes "github"; identity = stable_id (codes "7") }

full-IsWithin : IsWithin limits full
full-IsWithin = record {
  in_total = omega arith;
  for_each = λ p. omega (arith, length-retain-le (has_principal p) full.sessions);
  in_window = tt;
}

full_refuses :
    enforce_session_admission full.sessions full.recent_issuances ada
      (104 * nanos_per_second)
      limits
    ≡ err (rate_limited 6)
unfolding enforce_session_admission retain text_eq principal_eq minimum retry_after_session_expiry
    retry_after_duration
full_refuses = refl

enforce_session_admission_after_example :
    Passes limits full ada (104 * nanos_per_second) (110 * nanos_per_second) (rate_limited 6)
enforce_session_admission_after_example =
    enforce_session_admission_after limits full ada (104 * nanos_per_second) 6 (omega arith)
      (omega arith) (omega arith) full-IsWithin
      (record { expiries = omega arith; windows = tt; distinct = tt }) full_refuses

abbrev key : LfsSessionTokenKey
key = record { digest = codes "0123456789abcdef0123456789abcdef" }

abbrev nonce : List ℕ
nonce = codes "twelve bytes"

abbrev secret_session : LfsSessionRecord
secret_session = record {
  metadata = record {
    provider_id = codes "github";
    login = codes "ada";
    stable_id = none;
    granted_scopes = codes "repo" ∷ [];
    issued_at = 1_500_000_000;
    expires_at = 9_200_000_000;
  };
  github_personal_access_token = some (record { secret = codes "ghp" });
}

abbrev row : MetadataSessionRecord
row = record {
  token_sha256 = to_hex key;
  provider_id = codes "github";
  login = codes "ada";
  stable_id = none;
  granted_scopes_json = codes "repo";
  issued_at_unix_seconds = pos 1;
  expires_at_unix_seconds = pos 9;
  provider_access_token_ciphertext = some (codes "ghp");
  provider_access_token_nonce = some nonce;
}

row_stored : stored_session codec (some nonce) key secret_session ≡ ok row
unfolding stored_session encrypt session_associated_data unix_timestamp_seconds_i64 as_bytes
    encode_char
row_stored = refl

secret_valid : github_pat_from_secret (codes "ghp") ≡ ok (record { secret = codes "ghp" })
unfolding github_pat_from_secret validate_sensitive_github_value len trim trim_start is_whitespace
secret_valid = refl

restore_session-stored_session_example : restore_session codec row ≡ ok (key, whole secret_session)
restore_session-stored_session_example =
    restore_session-stored_session codec codec-IsFaithful (some nonce) key secret_session row
      (refl, refl) refl (refl, secret_valid) (omega arith) row_stored
