-- ===== src/Sessions/Store/Limits.antt =====
-- That a session store of src/sessions.rs stays within its limits.
use lfs_cloud.Prelude.{
  ℕ, ◌≤◌, ◌<◌, ◌≡◌, subst, inl, inr, Option, [], ◌∷◌, List, length, length-append, is_empty, Result,
  ok, ◌>>◌, All, Bool-cases, Option-cases, Result-cases, bind-eq-ok, arith,
}
use lfs_cloud.Prelude.Text.{Text}
use lfs_cloud.Prelude.Map.{Map, retain, values, get, remove, insert}
use lfs_cloud.Prelude.Map.Laws.{
  length-values, length-retain-le, length-retain-retain-le, length-remove-le,
  length-retain-remove-le,
}
use lfs_cloud.Errors.{ServerError}
use lfs_cloud.Sessions.{LfsSessionToken}
use lfs_cloud.Sessions.Admission.{
  LfsSessionRecord, LfsSessionPrincipal, principal_of, principal_eq, principal_eq_iff,
  principal_key, SessionStoreLimits, is_active, has_principal, retain_recent,
  prune_recent_issuances, admit_issuance, admit_session, enforce_session_admission,
}
use lfs_cloud.Sessions.TokenKey.{LfsSessionTokenKey, token_key, to_hex}
use lfs_cloud.Sessions.Durable.{Table, SessionCodec}
use lfs_cloud.Sessions.Store.{
  Store, Issue, prune_expired_sessions, push_back, take_active_session, delete_durable, key_of,
  issue_session_record, verify_record, revoke, store_len,
}
use lfs_cloud.Sessions.Store.Cases.{requested, pruned, WhenIssued, issue_rule}
use lfs_cloud.Sessions.Store.Window.{length-retain_recent-le}
use lfs_cloud.Sessions.Store.Events.{Event, issues, verifies, revokes, counts, step, run}

-- The sessions of a principal.
abbrev pub sessions_of :
    LfsSessionPrincipal
    → Map LfsSessionTokenKey LfsSessionRecord
    → Map LfsSessionTokenKey LfsSessionRecord
sessions_of principal sessions = retain (has_principal principal) sessions

abbrev pub RecentWithin : SessionStoreLimits → Map LfsSessionPrincipal (List ℕ) → Type 0
RecentWithin limits recent =
    All (λ (e : LfsSessionPrincipal × List ℕ). (length e.1 ≤ limits.max_issuances_per_window))
      recent

pub record IsWithin (limits : SessionStoreLimits) (store : Store) : Type 0 where
  pub in_total : length store.sessions ≤ limits.max_sessions
  pub for_each :
      (principal : LfsSessionPrincipal)
      → length (sessions_of principal store.sessions) ≤ limits.max_sessions_per_principal
  pub in_window : RecentWithin limits store.recent_issuances

admit_session-ok :
    (limit now : ℕ) (sessions : List LfsSessionRecord) {u : Unit}
    → admit_session limit now sessions ≡ ok u
    → length sessions < limit
admit_session-ok limit now sessions h = ground arith

module _ (limits : SessionStoreLimits) where
  prune_recent-Within :
      (now : ℕ) (recent : Map LfsSessionPrincipal (List ℕ))
      → RecentWithin limits recent
      → RecentWithin limits (prune_recent_issuances now limits.issuance_window recent)
  unfolding prune_recent_issuances
  prune_recent-Within now [] h = tt
  prune_recent-Within now ((principal, ts) ∷ recent) (h, hs) =
      let kept = retain_recent now limits.issuance_window ts in
      elim (Bool-cases (is_empty kept)) [
        | inl e ↦ rw e (prune_recent-Within now recent hs)
        | inr e ↦ rw e (
          omega (arith, length-retain_recent-le now limits.issuance_window ts),
          prune_recent-Within now recent hs,
        )
      ]

  remove-Within :
      (principal : LfsSessionPrincipal) (recent : Map LfsSessionPrincipal (List ℕ))
      → RecentWithin limits recent
      → RecentWithin limits (remove principal recent)
  unfolding remove
  remove-Within principal [] h = tt
  remove-Within principal ((other, ts) ∷ recent) (h, hs) =
      elim (Bool-cases (principal_eq principal other)) [
        | inl e ↦ rw e (remove-Within principal recent hs)
        | inr e ↦ rw e (h, remove-Within principal recent hs)
      ]

  push_back-Within :
      (principal : LfsSessionPrincipal) (now : ℕ) (recent : Map LfsSessionPrincipal (List ℕ))
      → 1 ≤ limits.max_issuances_per_window
      → admit_issuance limits now (get principal recent) ≡ ok tt
      → RecentWithin limits recent
      → RecentWithin limits (push_back principal now recent)
  push_back-Within principal now recent positive h w = elim (Option-cases (get principal recent)) [
    | inl e ↦ (rw e positive, remove-Within principal recent w)
    | inr (ts, e) ↦
        let admitted = rw e at h in
        (
          rw e (ground (arith, admitted, length-append {0} ts (now ∷ []))),
          remove-Within principal recent w,
        )
  ]

  retain-IsWithin :
      (now : ℕ) (store : Store) (durable : Option Table)
      → IsWithin limits store
      → IsWithin limits
          (record store { sessions = prune_expired_sessions now store.sessions; durable = durable })
  unfolding prune_expired_sessions
  retain-IsWithin now store durable w = record {
    in_total = omega (arith, w.in_total, length-retain-le (is_active now) store.sessions);
    for_each = λ p. omega (
      arith,
      w.for_each p,
      length-retain-retain-le (has_principal p) (is_active now) store.sessions,
    );
    in_window = w.in_window;
  }

  remove-IsWithin :
      (key : LfsSessionTokenKey) (store : Store) (durable : Option Table)
      → IsWithin limits store
      → IsWithin limits (record store { sessions = remove key store.sessions; durable = durable })
  remove-IsWithin key store durable w = record {
    in_total = omega (arith, w.in_total, length-remove-le key store.sessions);
    for_each = λ p.
        omega (arith, w.for_each p, length-retain-remove-le (has_principal p) key store.sessions);
    in_window = w.in_window;
  }

  admitted_room :
      (sessions : Map LfsSessionTokenKey LfsSessionRecord)
      (recent : Map LfsSessionPrincipal (List ℕ)) (p : LfsSessionPrincipal) (now : ℕ)
      → enforce_session_admission sessions recent p now limits ≡ ok tt
      → (length (sessions_of p sessions) < limits.max_sessions_per_principal)
        × (admit_issuance limits now (get p recent) ≡ ok tt)
        × (length sessions < limits.max_sessions)
  unfolding enforce_session_admission
  admitted_room sessions recent p now h =
      let first =
        admit_session limits.max_sessions_per_principal now (values (sessions_of p sessions)) in
      let (_, both, all) = bind-eq-ok (first >> admit_issuance limits now (get p recent)) _ h in
      let (_, own, window) = bind-eq-ok first _ both in
      (
        omega (arith, admit_session-ok _ now _ own, length-values (sessions_of p sessions)),
        window,
        omega (arith, admit_session-ok _ now _ all, length-values sessions),
      )

  -- What is admitted fits in.
  insert-sessions_of :
      (p : LfsSessionPrincipal) (key : LfsSessionTokenKey) (r : LfsSessionRecord)
      (sessions : Map LfsSessionTokenKey LfsSessionRecord)
      → length (sessions_of (principal_of r.metadata) sessions) < limits.max_sessions_per_principal
      → length (sessions_of p sessions) ≤ limits.max_sessions_per_principal
      → length (sessions_of p (insert key r sessions)) ≤ limits.max_sessions_per_principal
  unfolding retain
  insert-sessions_of p key r sessions room w =
      elim (Bool-cases (principal_eq (principal_of r.metadata) p)) [
        | inl e ↦
            let room_p =
              subst (λ q. length (sessions_of q sessions) < limits.max_sessions_per_principal)
                ((principal_eq_iff (principal_of r.metadata) p).0 e) room in
            rw e (omega (arith, room_p, length-retain-remove-le (has_principal p) key sessions))
        | inr e ↦ rw e (omega (arith, w, length-retain-remove-le (has_principal p) key sessions))
      ]

  module _ (sha256 : Text → List ℕ) (codec : SessionCodec) where
    issue-IsWithin :
        (request : Issue) (store : Store)
        → 1 ≤ limits.max_issuances_per_window
        → IsWithin limits store
        → IsWithin limits (issue_session_record sha256 codec limits request store).1
    issue-IsWithin request store positive w =
        issue_rule sha256 codec request limits store (λ o. IsWithin limits o.1) (λ e. w)
          (λ e durable _. pruned-IsWithin durable) issued
      where
        pruned-IsWithin :
            (durable : Option Table) → IsWithin limits (pruned limits request store durable)
        pruned-IsWithin durable =
            let kept = retain-IsWithin request.now store durable w in
            record {
              in_total = kept.in_total;
              for_each = kept.for_each;
              in_window = prune_recent-Within request.now store.recent_issuances w.in_window;
            }

        issued : WhenIssued sha256 codec request limits store (λ o. IsWithin limits o.1)
        issued expires_at token before after a d admitted free recorded =
            let r = requested request expires_at in
            let s = pruned limits request store before in
            let kept = pruned-IsWithin before in
            let (own, window, all) =
              admitted_room s.sessions s.recent_issuances (principal_of r.metadata) request.now
                admitted in
            let key = key_of sha256 token in
            record {
              in_total = omega (arith, all, length-remove-le key s.sessions);
              for_each = λ p. insert-sessions_of p key r s.sessions own (kept.for_each p);
              in_window =
                  push_back-Within (principal_of r.metadata) request.now s.recent_issuances positive
                    window kept.in_window;
            }

    take_active-IsWithin :
        (now : ℕ) (token : LfsSessionToken) (store : Store)
        → IsWithin limits store
        → IsWithin limits (verify_record sha256 now token store).1
    unfolding verify_record take_active_session
    take_active-IsWithin now token store w =
        let key = key_of sha256 token in
        elim (Option-cases (get key store.sessions)) [
          | inl e ↦ rw e w
          | inr (r, e) ↦ elim (Bool-cases (is_active now r)) [
            | inl f ↦ rw (e, f) w
            | inr f ↦ rw (e, f) (remove-IsWithin key store store.durable w)
          ]
        ]

    revoke-IsWithin :
        (now : ℕ) (deleted : Result ServerError (Unit {0})) (token : LfsSessionToken)
        (store : Store)
        → IsWithin limits store
        → IsWithin limits (revoke sha256 now deleted token store).1
    unfolding revoke
    revoke-IsWithin now deleted token store w =
        let key = key_of sha256 token in
        elim (Result-cases (delete_durable (to_hex key) deleted store.durable)) [
          | inl (durable, e) ↦ rw e (remove-IsWithin key store durable w)
          | inr (failure, e) ↦ rw e w
        ]

    step-IsWithin :
        (event : Event) (store : Store)
        → 1 ≤ limits.max_issuances_per_window
        → IsWithin limits store
        → IsWithin limits (step sha256 codec limits event store)
    unfolding step store_len
    step-IsWithin (issues request) store positive w = issue-IsWithin request store positive w
    step-IsWithin (verifies now token) store positive w = take_active-IsWithin now token store w
    step-IsWithin (revokes now deleted token) store positive w =
        revoke-IsWithin now deleted token store w
    step-IsWithin (counts now) store positive w = retain-IsWithin now store store.durable w

    -- However sessions are issued, verified, revoked and counted, and whatever the clock and the
    -- database say, the store keeps to its limits: on all sessions, on the sessions of each principal,
    -- and on the issuances that it remembers of each.
    pub run-IsWithin :
        (events : List Event) (store : Store)
        → 1 ≤ limits.max_issuances_per_window
        → IsWithin limits store
        → IsWithin limits (run sha256 codec limits events store)
    unfolding run
    run-IsWithin [] store positive w = w
    run-IsWithin (event ∷ events) store positive w =
        run-IsWithin events (step sha256 codec limits event store) positive
          (step-IsWithin event store positive w)
