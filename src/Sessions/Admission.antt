-- ===== src/Sessions/Admission.antt =====
-- Who may get another session: the limits of src/sessions.rs, and the delay that a refusal advises.
use lfs_cloud.Prelude.{
  ℕ, min, max, ◌*◌, ◌>>◌, ◌↔◌, ◌≡◌, arith, ◌/◌, Bool, true, false, ◌&&◌, Option, none, some, [],
  ◌∷◌, List, map, leb, ltb, if◌then◌else◌, length, is_empty, Result, ok, err,
}
use lfs_cloud.Prelude.Text.{Text, text_eq, text_eq_iff}
use lfs_cloud.Prelude.Map.{Eq, Map, retain, values, get}
use lfs_cloud.Errors.{ServerError, rate_limited}
use lfs_cloud.GitHubAuth.{GitHubPersonalAccessToken}
use lfs_cloud.Sessions.{LfsSessionMetadata}
use lfs_cloud.Sessions.Clock.{nanos_per_second, checked_add, retry_after_duration}

pub record LfsSessionRecord : Type 0 where
  pub metadata : LfsSessionMetadata
  pub github_personal_access_token : Option GitHubPersonalAccessToken

pub data LfsSessionPrincipalIdentity : Type 0 where
  stable_id login : Text → LfsSessionPrincipalIdentity

pub record LfsSessionPrincipal : Type 0 where
  pub provider_id : Text
  pub identity : LfsSessionPrincipalIdentity

abbrev pub identity_of : Option Text → Text → LfsSessionPrincipalIdentity
identity_of (some id) name = stable_id id
identity_of none name = login name

-- `LfsSessionPrincipal::from_metadata`
abbrev pub principal_of : LfsSessionMetadata → LfsSessionPrincipal
principal_of metadata = record {
  provider_id = metadata.provider_id;
  identity = identity_of metadata.stable_id metadata.login;
}

abbrev pub identity_eq : LfsSessionPrincipalIdentity → LfsSessionPrincipalIdentity → Bool
identity_eq (stable_id a) (stable_id b) = text_eq a b
identity_eq (login a) (login b) = text_eq a b
identity_eq _ _ = false

unfoldable pub principal_eq : LfsSessionPrincipal → LfsSessionPrincipal → Bool
principal_eq a b = text_eq a.provider_id b.provider_id && identity_eq a.identity b.identity

identity_eq_iff : (a b : LfsSessionPrincipalIdentity) → (identity_eq a b ≡ true) ↔ (a ≡ b)
identity_eq_iff (stable_id a) (stable_id b) = ground (arith, text_eq_iff a b)
identity_eq_iff (stable_id a) (login b) = (λ h. cc, λ h. cc)
identity_eq_iff (login a) (stable_id b) = (λ h. cc, λ h. cc)
identity_eq_iff (login a) (login b) = ground (arith, text_eq_iff a b)

pub principal_eq_iff : (a b : LfsSessionPrincipal) → (principal_eq a b ≡ true) ↔ (a ≡ b)
unfolding principal_eq
principal_eq_iff a b =
    ground (arith, text_eq_iff a.provider_id b.provider_id, identity_eq_iff a.identity b.identity)

instance abbrev pub principal_key : Eq LfsSessionPrincipal
principal_key = record { beq = principal_eq; beq_iff = principal_eq_iff }

pub record SessionStoreLimits : Type 0 where
  pub max_sessions : ℕ
  pub max_sessions_per_principal : ℕ
  pub max_issuances_per_window : ℕ
  -- in nanoseconds
  pub issuance_window : ℕ

-- `SessionStoreLimits::production`
abbrev pub production : SessionStoreLimits
production = record {
  max_sessions = 1024;
  max_sessions_per_principal = 16;
  max_issuances_per_window = 8;
  issuance_window = 60 * nanos_per_second;
}

abbrev pub is_active : ℕ → LfsSessionRecord → Bool
is_active now r = ltb now r.metadata.expires_at

abbrev pub has_principal : LfsSessionPrincipal → LfsSessionRecord → Bool
has_principal principal r = principal_eq (principal_of r.metadata) principal

-- Iterator::min
unfoldable pub minimum : List ℕ → Option ℕ
minimum [] = none
minimum (x ∷ xs) = elim (minimum xs) [ none ↦ some x | some y ↦ some (min x y) ]

abbrev pub retry_after_minimum : ℕ → Option ℕ → ℕ
retry_after_minimum now none = 1
retry_after_minimum now (some expires_at) = retry_after_duration expires_at now

unfoldable pub retry_after_session_expiry : List ℕ → ℕ → ℕ
retry_after_session_expiry expirations now = retry_after_minimum now (minimum expirations)

abbrev pub expiry : LfsSessionRecord → ℕ
expiry r = r.metadata.expires_at

-- Whether an issuance still counts.
abbrev pub is_recent : ℕ → ℕ → ℕ → Bool
is_recent now window issued_at = elim (checked_add issued_at window) [
  | none ↦ true
  | some e ↦ ltb now e
]

unfoldable pub retain_recent : ℕ → ℕ → List ℕ → List ℕ
retain_recent now window [] = []
retain_recent now window (t ∷ ts) =
    let rest = retain_recent now window ts in if is_recent now window t then t ∷ rest else rest

unfoldable pub prune_recent_issuances :
    ℕ → ℕ → Map LfsSessionPrincipal (List ℕ) → Map LfsSessionPrincipal (List ℕ)
prune_recent_issuances now window [] = []
prune_recent_issuances now window ((principal, ts) ∷ m) =
    let rest = prune_recent_issuances now window m in
    let kept = retain_recent now window ts in
    if is_empty kept then rest else (principal, kept) ∷ rest

-- When each issuance leaves the window, where the time has a representation.
unfoldable pub window_ends : ℕ → List ℕ → List ℕ
window_ends window [] = []
window_ends window (t ∷ ts) =
    let rest = window_ends window ts in
    elim (checked_add t window) [ none ↦ rest | some e ↦ e ∷ rest ]

abbrev pub retry_after_window : SessionStoreLimits → ℕ → Option ℕ → ℕ
retry_after_window limits now none = max (limits.issuance_window / nanos_per_second) 1
retry_after_window limits now (some retry_at) = retry_after_duration retry_at now

abbrev pub admit_issuance : SessionStoreLimits → ℕ → Option (List ℕ) → Result ServerError (Unit {0})
admit_issuance limits now none = ok tt
admit_issuance limits now (some recent) =
    if leb limits.max_issuances_per_window (length recent)
    then err (
        rate_limited
          (retry_after_window limits now (minimum (window_ends limits.issuance_window recent))))
    else ok tt

-- Refuses where there are that many sessions already.
abbrev pub admit_session : ℕ → ℕ → List LfsSessionRecord → Result ServerError (Unit {0})
admit_session limit now sessions =
    if leb limit (length sessions)
    then err (rate_limited (retry_after_session_expiry (map expiry sessions) now))
    else ok tt

module _ {K : Type 0} where
  unfoldable pub enforce_session_admission :
      Map K LfsSessionRecord
      → Map LfsSessionPrincipal (List ℕ)
      → LfsSessionPrincipal
      → ℕ
      → SessionStoreLimits
      → Result ServerError (Unit {0})
  enforce_session_admission sessions recent principal now limits =
      admit_session limits.max_sessions_per_principal now
        (values (retain (has_principal principal) sessions))
      >> admit_issuance limits now (get principal recent)
      >> admit_session limits.max_sessions now (values sessions)
