-- ===== src/Sessions/Store/Ledger.antt =====
-- That a session store of src/sessions.rs answers as one that forgets nothing.
use lfs_cloud.Prelude.{
  ℕ, ◌≤◌, ◌≡◌, refl, ◌∙◌, inl, inr, [], ◌∷◌, List, Result, ok, err, Bool-cases, Option-cases,
  Result-cases,
}
use lfs_cloud.Prelude.Text.{Text}
use lfs_cloud.Prelude.Map.{get, remove, insert}
use lfs_cloud.Prelude.Map.Unique.{filter}
use lfs_cloud.Errors.{ServerError}
use lfs_cloud.Sessions.{LfsSessionToken}
use lfs_cloud.Sessions.Admission.{SessionStoreLimits, is_active}
use lfs_cloud.Sessions.TokenKey.{token_key, to_hex}
use lfs_cloud.Sessions.Durable.{SessionCodec}
use lfs_cloud.Sessions.Store.{
  Store, Issue, IssuedLfsSession, take_active_session, delete_durable, key_of, issue_session_record,
  verify_record, revoke, store_len,
}
use lfs_cloud.Sessions.Store.Cases.{requested, pruned, issue_rule}
use lfs_cloud.Sessions.Store.Events.{Event, issues, verifies, revokes, counts, step, run}
use lfs_cloud.Sessions.Store.Agreement.{
  Ledger, Agrees, later-Agrees, prune-Agrees, insert-Agrees, remove-Agrees, expire-Agrees,
}

abbrev pub time_of : Event → ℕ
time_of (issues request) = request.now
time_of (verifies now _) = now
time_of (revokes now _ _) = now
time_of (counts now) = now

-- The clock does not go back from one event to the next.
abbrev pub InOrder : ℕ → List Event → Type 0
InOrder now [] = Unit
InOrder now (event ∷ events) = (now ≤ time_of event) × InOrder (time_of event) events

abbrev pub last_time : ℕ → List Event → ℕ
last_time now [] = now
last_time now (event ∷ events) = last_time (time_of event) events

module _ (sha256 : Text → List ℕ) (codec : SessionCodec) (limits : SessionStoreLimits) where
  -- A session is noted if the answer says that it is issued, and struck out if it is revoked.
  abbrev pub note_issued : Issue → Result ServerError IssuedLfsSession → Ledger → Ledger
  note_issued request (err e) ledger = ledger
  note_issued request (ok issued) ledger =
      insert (key_of sha256 issued.token)
        (record {
          metadata = issued.metadata;
          github_personal_access_token = request.github_personal_access_token;
        })
        ledger

  abbrev pub note_revoked {ℓ} :
      {A : Type ℓ} → LfsSessionToken → Result ServerError A → Ledger → Ledger
  note_revoked token (err e) ledger = ledger
  note_revoked token (ok _) ledger = remove (key_of sha256 token) ledger

  abbrev pub note : Event → Store → Ledger → Ledger
  note (issues request) store ledger =
      note_issued request (issue_session_record sha256 codec limits request store).0 ledger
  note (verifies now token) store ledger = ledger
  note (revokes now deleted token) store ledger =
      note_revoked token (revoke sha256 now deleted token store).0 ledger
  note (counts now) store ledger = ledger

  unfoldable pub ledger_of : List Event → Store → Ledger → Ledger
  ledger_of [] store ledger = ledger
  ledger_of (event ∷ events) store ledger =
      ledger_of events (step sha256 codec limits event store) (note event store ledger)

  issue-Agrees :
      (request : Issue) (store : Store) (ledger : Ledger)
      → Agrees request.now store.sessions ledger
      → let o = issue_session_record sha256 codec limits request store in
        Agrees request.now o.1.sessions (note_issued request o.0 ledger)
  issue-Agrees request store ledger a =
      issue_rule sha256 codec request limits store
        (λ o. Agrees request.now o.1.sessions (note_issued request o.0 ledger)) (λ e. a)
        (λ e durable _. prune-Agrees request.now store.sessions ledger a)
        (λ expires_at token before after _ _ _ _ _.
          insert-Agrees request.now (key_of sha256 token) (requested request expires_at)
            (pruned limits request store before).sessions ledger
            (prune-Agrees request.now store.sessions ledger a))

  verify-Agrees :
      (now : ℕ) (token : LfsSessionToken) (store : Store) (ledger : Ledger)
      → Agrees now store.sessions ledger
      → Agrees now (verify_record sha256 now token store).1.sessions ledger
  unfolding verify_record take_active_session
  verify-Agrees now token store ledger a =
      let key = key_of sha256 token in
      elim (Option-cases (get key store.sessions)) [
        | inl e ↦ rw e a
        | inr (r, e) ↦ elim (Bool-cases (is_active now r)) [
          | inl f ↦ rw (e, f) a
          | inr f ↦ rw (e, f) (expire-Agrees now key r store.sessions ledger e f a)
        ]
      ]

  revoke-Agrees :
      (now : ℕ) (deleted : Result ServerError (Unit {0})) (token : LfsSessionToken) (store : Store)
      (ledger : Ledger)
      → Agrees now store.sessions ledger
      → Agrees now
          (revoke sha256 now deleted token store).1.sessions
          (note_revoked token (revoke sha256 now deleted token store).0 ledger)
  unfolding revoke
  revoke-Agrees now deleted token store ledger a =
      let key = key_of sha256 token in
      elim (Result-cases (delete_durable (to_hex key) deleted store.durable)) [
        | inl (durable, e) ↦ rw e (remove-Agrees now key store.sessions ledger a)
        | inr (failure, e) ↦ rw e a
      ]

  step-Agrees :
      (event : Event) (store : Store) (ledger : Ledger)
      → Agrees (time_of event) store.sessions ledger
      → Agrees
          (time_of event)
          (step sha256 codec limits event store).sessions
          (note event store ledger)
  unfolding step store_len
  step-Agrees (issues request) store ledger a = issue-Agrees request store ledger a
  step-Agrees (verifies now token) store ledger a = verify-Agrees now token store ledger a
  step-Agrees (revokes now deleted token) store ledger a =
      revoke-Agrees now deleted token store ledger a
  step-Agrees (counts now) store ledger a = prune-Agrees now store.sessions ledger a

  run-Agrees :
      (now : ℕ) (events : List Event) (store : Store) (ledger : Ledger)
      → InOrder now events
      → Agrees now store.sessions ledger
      → Agrees
          (last_time now events)
          (run sha256 codec limits events store).sessions
          (ledger_of events store ledger)
  unfolding run ledger_of
  run-Agrees now [] store ledger h a = a
  run-Agrees now (event ∷ events) store ledger (h, hs) a =
      run-Agrees (time_of event) events (step sha256 codec limits event store)
        (note event store ledger) hs
        (step-Agrees event store ledger
          (later-Agrees now (time_of event) store.sessions ledger h a))

  verify_answers :
      (now : ℕ) (token : LfsSessionToken) (store : Store)
      → (verify_record sha256 now token store).0
        ≡ filter (is_active now) (get (key_of sha256 token) store.sessions)
  unfolding verify_record take_active_session
  verify_answers now token store = elim (Option-cases (get (key_of sha256 token) store.sessions)) [
    | inl e ↦ rw e refl
    | inr (r, e) ↦ elim (Bool-cases (is_active now r)) [
      | inl f ↦ rw (e, f) refl
      | inr f ↦ rw (e, f) refl
    ]
  ]

  -- After any events in the order of the clock, a token is verified exactly if the ledger of what was
  -- issued and not revoked has a session for it that has not expired, and the answer is that session.
  pub verify_record-ledger_of :
      (now t : ℕ) (events : List Event) (store : Store) (ledger : Ledger) (token : LfsSessionToken)
      → InOrder now events
      → Agrees now store.sessions ledger
      → last_time now events ≤ t
      → (verify_record sha256 t token (run sha256 codec limits events store)).0
        ≡ filter (is_active t) (get (key_of sha256 token) (ledger_of events store ledger))
  verify_record-ledger_of now t events store ledger token h a late =
      verify_answers t token (run sha256 codec limits events store)
      ∙ (run-Agrees now events store ledger h a).same (key_of sha256 token) t late
