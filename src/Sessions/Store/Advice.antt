-- ===== src/Sessions/Store/Advice.antt =====
-- That a client which waits as src/sessions.rs advises is not refused again for the same reason.
use lfs_cloud.Prelude.{
  ℕ, ◌*◌, ◌≤◌, ◌<◌, ◌≡◌, refl, subst, ◌⊎◌, inl, inr, Bool, some, [], ◌∷◌, List, length, Result, ok,
  err, All, Bool-cases, Option-cases, Result-cases, arith,
}
use lfs_cloud.Prelude.Map.{Map, retain, values, get}
use lfs_cloud.Prelude.Map.Laws.{retain_comm}
use lfs_cloud.Prelude.Map.Unique.{IsMap}
use lfs_cloud.Errors.{ServerError, rate_limited}
use lfs_cloud.Sessions.Clock.{nanos_per_second, i64_bound}
use lfs_cloud.Sessions.Admission.{
  LfsSessionRecord, LfsSessionPrincipal, principal_eq, principal_key, SessionStoreLimits, is_active,
  has_principal, expiry, prune_recent_issuances, admit_issuance, admit_session,
  enforce_session_admission,
}
use lfs_cloud.Sessions.TokenKey.{LfsSessionTokenKey}
use lfs_cloud.Sessions.Store.{Store, prune_expired_sessions}
use lfs_cloud.Sessions.Store.Limits.{sessions_of, IsWithin}
use lfs_cloud.Sessions.Store.Retry.{after_seconds, admit_session_after}
use lfs_cloud.Sessions.Store.Window.{WindowsFit, get-prune_recent_issuances, admit_issuance_after}

-- The times of the store, and the ends of the windows, have representations.
pub record IsTimely (limits : SessionStoreLimits) (store : Store) : Type 0 where
  pub expiries :
      All
        (λ (e : LfsSessionTokenKey × LfsSessionRecord). (expiry e.1 < i64_bound * nanos_per_second))
        store.sessions
  pub windows :
      All
        (λ (e : LfsSessionPrincipal × List ℕ). WindowsFit limits.issuance_window e.1)
        store.recent_issuances
  pub distinct : IsMap store.recent_issuances

retain-All {ℓ} :
    {K V : Type 0} (P : K × V → Type ℓ) (p : V → Bool) (m : Map K V) → All P m → All P (retain p m)
unfolding retain
retain-All P p [] h = tt
retain-All P p ((k, v) ∷ m) (h, hs) = elim (Bool-cases (p v)) [
  | inl e ↦ rw e (h, retain-All P p m hs)
  | inr e ↦ rw e (retain-All P p m hs)
]

get-All :
    (P : List ℕ → Type 0) (p : LfsSessionPrincipal) (ts : List ℕ)
    (m : Map LfsSessionPrincipal (List ℕ))
    → All (λ (e : LfsSessionPrincipal × List ℕ). P e.1) m
    → get p m ≡ some ts
    → P ts
unfolding get
get-All P p ts [] h e = cc
get-All P p ts ((other, us) ∷ m) (h, hs) e = elim (Bool-cases (principal_eq p other)) [
  | inl f ↦ let same : us ≡ ts = ground arith in subst P same h
  | inr f ↦ get-All P p ts m hs (ground arith)
]

-- The three tests of `enforce_session_admission`, on what is left of a store at a time.
module _ (limits : SessionStoreLimits) (store : Store) (p : LfsSessionPrincipal) where
  abbrev pub own_test : ℕ → Map LfsSessionTokenKey LfsSessionRecord → Result ServerError (Unit {0})
  own_test now sessions =
      admit_session limits.max_sessions_per_principal now (values (sessions_of p sessions))

  abbrev pub window_test : ℕ → Map LfsSessionPrincipal (List ℕ) → Result ServerError (Unit {0})
  window_test now recent = admit_issuance limits now (get p recent)

  abbrev pub total_test :
      ℕ → Map LfsSessionTokenKey LfsSessionRecord → Result ServerError (Unit {0})
  total_test now sessions = admit_session limits.max_sessions now (values sessions)

  -- One of the tests refuses at the first time, and passes at the second on what is left then.
  abbrev pub Passes : ℕ → ℕ → ServerError → Type 0
  Passes now t e =
      let sessions = prune_expired_sessions t store.sessions in
      let recent = prune_recent_issuances t limits.issuance_window store.recent_issuances in
      ((own_test now store.sessions ≡ err e) × (own_test t sessions ≡ ok tt))
      ⊎ ((window_test now store.recent_issuances ≡ err e) × (window_test t recent ≡ ok tt))
      ⊎ ((total_test now store.sessions ≡ err e) × (total_test t sessions ≡ ok tt))

  module _ (now n : ℕ) (w : IsWithin limits store) (times : IsTimely limits store) where
    own_after :
        1 ≤ limits.max_sessions_per_principal
        → own_test now store.sessions ≡ err (rate_limited n)
        → own_test
            (after_seconds now n)
            (prune_expired_sessions (after_seconds now n) store.sessions)
          ≡ ok tt
    unfolding prune_expired_sessions
    own_after positive h =
        rw (retain_comm (has_principal p) (is_active (after_seconds now n)) store.sessions) (
          admit_session_after (sessions_of p store.sessions) limits.max_sessions_per_principal now n
            positive (w.for_each p) (retain-All _ (has_principal p) store.sessions times.expiries)
            h)

    total_after :
        1 ≤ limits.max_sessions
        → total_test now store.sessions ≡ err (rate_limited n)
        → total_test
            (after_seconds now n)
            (prune_expired_sessions (after_seconds now n) store.sessions)
          ≡ ok tt
    unfolding prune_expired_sessions
    total_after positive h =
        admit_session_after store.sessions limits.max_sessions now n positive w.in_total
          times.expiries h

    window_after :
        1 ≤ limits.max_issuances_per_window
        → window_test now store.recent_issuances ≡ err (rate_limited n)
        → window_test (after_seconds now n) (
            prune_recent_issuances
              (after_seconds now n)
              limits.issuance_window
              store.recent_issuances)
          ≡ ok tt
    window_after positive h =
        let t = after_seconds now n in
        rw
          (get-prune_recent_issuances p t limits.issuance_window store.recent_issuances
            times.distinct)
          (elim (Option-cases (get p store.recent_issuances)) [
            | inl e ↦ rw e refl
            | inr (ts, e) ↦
                let refused = rw e at h in
                rw e (
                  admit_issuance_after limits now n ts positive
                    (get-All (λ us. length us ≤ limits.max_issuances_per_window) p ts
                      store.recent_issuances w.in_window e)
                    (get-All (λ us. WindowsFit limits.issuance_window us) p ts
                      store.recent_issuances times.windows e)
                    refused)
          ])

  -- A principal that is refused with a delay, and asks again after it when nothing else has happened,
  -- is not refused for the same reason: the test that refused it passes.
  pub enforce_session_admission_after :
      (now n : ℕ)
      → 1 ≤ limits.max_sessions
      → 1 ≤ limits.max_sessions_per_principal
      → 1 ≤ limits.max_issuances_per_window
      → IsWithin limits store
      → IsTimely limits store
      → enforce_session_admission store.sessions store.recent_issuances p now limits
        ≡ err (rate_limited n)
      → Passes now (after_seconds now n) (rate_limited n)
  unfolding enforce_session_admission
  enforce_session_admission_after now n total own window w times h =
      elim (Result-cases (own_test now store.sessions)) [
        | inr (e, a) ↦
            let refused = rw a at h in
            let same : e ≡ rate_limited n = cc in
            let own_refused : own_test now store.sessions ≡ err (rate_limited n) = rw (← same) a in
            inl (own_refused, own_after now n w times own own_refused)
        | inl (tt, a) ↦ elim (Result-cases (window_test now store.recent_issuances)) [
          | inr (e, b) ↦
              let refused = rw (a, b) at h in
              let same : e ≡ rate_limited n = cc in
              let window_refused : window_test now store.recent_issuances ≡ err (rate_limited n) =
                rw (← same) b in
              inr (inl (window_refused, window_after now n w times window window_refused))
          | inl (tt, b) ↦
              let refused : total_test now store.sessions ≡ err (rate_limited n) = rw (a, b) at h in
              inr (inr (refused, total_after now n w times total refused))
        ]
      ]
