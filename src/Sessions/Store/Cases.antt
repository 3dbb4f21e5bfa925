-- ===== src/Sessions/Store/Cases.antt =====
-- The ways in which the issue of a session in src/sessions.rs can end, as one rule.
use lfs_cloud.Prelude.{
  ℕ, zero, suc, ◌+◌, ◌≡◌, refl, ◌⊎◌, inl, inr, ◌==◌, Option, none, some, List, Result, ok, err,
  Bool-cases, Option-cases, Result-cases,
}
use lfs_cloud.Prelude.Text.{Text}
use lfs_cloud.Prelude.Map.{get}
use lfs_cloud.Errors.{ServerError}
use lfs_cloud.Sessions.{LfsSessionToken}
use lfs_cloud.Sessions.Clock.{checked_add}
use lfs_cloud.Sessions.Admission.{
  LfsSessionRecord, principal_of, principal_key, SessionStoreLimits, prune_recent_issuances,
  enforce_session_admission,
}
use lfs_cloud.Sessions.TokenKey.{token_key}
use lfs_cloud.Sessions.Durable.{Table, SessionCodec}
use lfs_cloud.Sessions.Store.{
  Store, Issue, IssuedLfsSession, metadata_of, prune_expired_sessions, delete_expired, key_of,
  record_durable, insert_session, issue_token, issue_until, issue_session_record,
}

-- The session that is asked for.
abbrev pub requested : Issue → ℕ → LfsSessionRecord
requested request expires_at = record {
  metadata = metadata_of request.user request.granted_scopes request.now expires_at;
  github_personal_access_token = request.github_personal_access_token;
}

abbrev pub pruned : SessionStoreLimits → Issue → Store → Option Table → Store
pruned limits request store durable = record {
  sessions = prune_expired_sessions request.now store.sessions;
  recent_issuances =
      prune_recent_issuances request.now limits.issuance_window store.recent_issuances;
  durable = durable;
}

module _ (sha256 : Text → List ℕ) (codec : SessionCodec) (request : Issue) where
  module _ (P : Result ServerError IssuedLfsSession × Store → Type 0) (r : LfsSessionRecord)
      (store : Store) where
    issue_token_rule :
        (attempts i : ℕ)
        → ((e : ServerError) → P (err e, store))
        → ((token : LfsSessionToken) (durable : Option Table)
            → get (key_of sha256 token) store.sessions ≡ none
            → record_durable sha256 codec request (key_of sha256 token) r store.durable ≡ ok durable
            → P (insert_session sha256 codec token r store (ok durable)))
        → P (issue_token sha256 codec request r store attempts i)
    unfolding issue_token
    issue_token_rule zero i refused issued = refused _
    issue_token_rule (suc attempts) i refused issued =
        let token = request.generate i in
        let key = key_of sha256 token in
        elim (Option-cases (get key store.sessions)) [
          | inr (other, e) ↦ rw e (issue_token_rule attempts (i + 1) refused issued)
          | inl e ↦ elim (Result-cases (record_durable sha256 codec request key r store.durable)) [
            | inl (durable, d) ↦ rw (e, d) (issued token durable e d)
            | inr (failure, d) ↦ rw (e, d) (refused failure)
          ]
        ]

  module _ (limits : SessionStoreLimits) (store : Store)
      (P : Result ServerError IssuedLfsSession × Store → Type 0) where
    -- The session is admitted, its key is free, and the database has recorded it.
    abbrev pub WhenIssued : Type 0
    WhenIssued =
        (expires_at : ℕ) (token : LfsSessionToken) (before after : Option Table)
        → checked_add request.now request.ttl ≡ some expires_at
        → delete_expired request.now request.deleted store.durable ≡ ok before
        → enforce_session_admission (pruned limits request store before).sessions
            (pruned limits request store before).recent_issuances
            (principal_of (requested request expires_at).metadata) request.now limits
          ≡ ok tt
        → get (key_of sha256 token) (pruned limits request store before).sessions ≡ none
        → record_durable sha256 codec request (key_of sha256 token) (requested request expires_at)
            before
          ≡ ok after
        → P (
            insert_session sha256 codec token (requested request expires_at)
              (pruned limits request store before) (ok after))

    module _ (untouched : (e : ServerError) → P (err e, store))
        (refused : (e : ServerError) (durable : Option Table)
          → (durable ≡ store.durable)
            ⊎ (delete_expired request.now request.deleted store.durable ≡ ok durable)
          → P (err e, pruned limits request store durable))
        (issued : WhenIssued) where
      issue_until_rule :
          (o : Option ℕ)
          → checked_add request.now request.ttl ≡ o
          → P (issue_until sha256 codec limits request store o)
      issue_until_rule none a = untouched _
      issue_until_rule (some expires_at) a =
          let r = requested request expires_at in
          elim (Result-cases (delete_expired request.now request.deleted store.durable)) [
            | inr (failure, d) ↦ rw d (refused failure store.durable (inl refl))
            | inl (durable, d) ↦
                let before = pruned limits request store durable in
                elim (Result-cases (
                  enforce_session_admission before.sessions before.recent_issuances
                    (principal_of r.metadata) request.now limits)) [
                      | inr (failure, f) ↦ rw (d, f) (refused failure durable (inr d))
                      | inl (tt, f) ↦
                          rw (d, f)
                            (issue_token_rule P r before 8 0 (λ e. refused e durable (inr d))
                              (λ token after g h. issued expires_at token durable after a d f g h))
                    ]
          ]

      pub issue_rule : P (issue_session_record sha256 codec limits request store)
      unfolding issue_session_record
      issue_rule = elim (Bool-cases (request.ttl == 0)) [
        | inl e ↦ rw e (untouched _)
        | inr e ↦ rw e (issue_until_rule (checked_add request.now request.ttl) refl)
      ]
