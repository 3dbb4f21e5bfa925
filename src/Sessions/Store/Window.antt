-- ===== src/Sessions/Store/Window.antt =====
-- When src/sessions.rs lets a principal have another session that has had too many in the window.
use lfs_cloud.Prelude.{
  ℕ, ◌+◌, ◌*◌, ◌≤◌, ◌<◌, ◌≡◌, refl, subst, inl, inr, Option, none, some, [], ◌∷◌, List, leb,
  if◌then◌else◌, length, is_empty, ok, err, All, Bool-cases, Option-cases, arith,
}
use lfs_cloud.Prelude.Map.{Map, get}
use lfs_cloud.Prelude.Map.Unique.{IsMap}
use lfs_cloud.Errors.{rate_limited}
use lfs_cloud.Sessions.Clock.{nanos_per_second, i64_bound, checked_add, retry_after_duration}
use lfs_cloud.Sessions.Admission.{
  LfsSessionPrincipal, principal_eq, principal_eq_iff, principal_key, SessionStoreLimits, minimum,
  is_recent, retain_recent, prune_recent_issuances, window_ends, retry_after_window, admit_issuance,
}
use lfs_cloud.Sessions.Store.Retry.{after_seconds, retry_after_duration_enough}

-- The end of the window of each has a representation.
abbrev pub WindowsFit : ℕ → List ℕ → Type 0
WindowsFit window ts = All (λ (t : ℕ). (t + window < i64_bound * nanos_per_second)) ts

pub length-retain_recent-le :
    (now window : ℕ) (ts : List ℕ) → length (retain_recent now window ts) ≤ length ts
unfolding retain_recent
length-retain_recent-le now window [] = omega arith
length-retain_recent-le now window (t ∷ ts) = elim (Bool-cases (is_recent now window t)) [
  | inl e ↦ rw e (omega (arith, length-retain_recent-le now window ts))
  | inr e ↦ rw e (omega (arith, length-retain_recent-le now window ts))
]

fits_lem :
    (t window : ℕ)
    → t + window < i64_bound * nanos_per_second
    → checked_add t window ≡ some (t + window)
fits_lem t window h = ground arith

window_ends-cons :
    (window t : ℕ) (ts : List ℕ)
    → t + window < i64_bound * nanos_per_second
    → window_ends window (t ∷ ts) ≡ (t + window) ∷ window_ends window ts
unfolding window_ends
window_ends-cons window t ts h = ground arith

minimum_fits :
    (window : ℕ) (ts : List ℕ) (e : ℕ)
    → WindowsFit window ts
    → minimum (window_ends window ts) ≡ some e
    → e < i64_bound * nanos_per_second
unfolding minimum window_ends
minimum_fits window [] e fit h = cc
minimum_fits window (t ∷ ts) e (f, fit) h =
    let h' = subst (λ ends. minimum ends ≡ some e) (window_ends-cons window t ts f) h in
    elim (Option-cases (minimum (window_ends window ts))) [
      | inl g ↦ ground arith
      | inr (z, g) ↦ ground (arith, minimum_fits window ts z fit g)
    ]

minimum_leaves :
    (window : ℕ) (ts : List ℕ) (e now : ℕ)
    → WindowsFit window ts
    → minimum (window_ends window ts) ≡ some e
    → e ≤ now
    → length (retain_recent now window ts) < length ts
unfolding minimum window_ends retain_recent
minimum_leaves window [] e now fit h late = cc
minimum_leaves window (t ∷ ts) e now (f, fit) h late =
    let fits = fits_lem t window f in
    let h' = subst (λ ends. minimum ends ≡ some e) (window_ends-cons window t ts f) h in
    elim (Bool-cases (is_recent now window t)) [
      | inr g ↦ rw g (omega (arith, length-retain_recent-le now window ts))
      | inl g ↦ elim (Option-cases (minimum (window_ends window ts))) [
        | inl k ↦ absurd (ground arith)
        | inr (z, k) ↦ rw g (ground (arith, minimum_leaves window ts z now fit k))
      ]
    ]

minimum-eq-none :
    (window : ℕ) (ts : List ℕ)
    → WindowsFit window ts
    → minimum (window_ends window ts) ≡ none
    → length ts ≡ 0
unfolding minimum window_ends
minimum-eq-none window [] fit h = refl
minimum-eq-none window (t ∷ ts) (f, fit) h =
    let h' = subst (λ ends. minimum ends ≡ none) (window_ends-cons window t ts f) h in
    elim (Option-cases (minimum (window_ends window ts))) [
      | inl g ↦ absurd (ground arith)
      | inr (z, g) ↦ absurd (ground arith)
    ]

-- What `prune_recent_issuances` leaves of a principal's issuances.
abbrev pub kept : ℕ → ℕ → Option (List ℕ) → Option (List ℕ)
kept now window none = none
kept now window (some ts) =
    if is_empty (retain_recent now window ts) then none else some (retain_recent now window ts)

get-prune-eq-none :
    (p : LfsSessionPrincipal) (now window : ℕ) (m : Map LfsSessionPrincipal (List ℕ))
    → get p m ≡ none
    → get p (prune_recent_issuances now window m) ≡ none
unfolding get prune_recent_issuances
get-prune-eq-none p now window [] h = refl
get-prune-eq-none p now window ((other, ts) ∷ m) h =
    ground (arith, get-prune-eq-none p now window m)

pub get-prune_recent_issuances :
    (p : LfsSessionPrincipal) (now window : ℕ) (m : Map LfsSessionPrincipal (List ℕ))
    → IsMap m
    → get p (prune_recent_issuances now window m) ≡ kept now window (get p m)
unfolding get prune_recent_issuances
get-prune_recent_issuances p now window [] u = refl
get-prune_recent_issuances p now window ((other, ts) ∷ m) (h, u) =
    elim (Bool-cases (principal_eq p other)) [
      | inl same ↦
          let absent : get p (prune_recent_issuances now window m) ≡ none =
            rw ((principal_eq_iff p other).0 same) (get-prune-eq-none other now window m h) in
          ground (arith, absent)
      | inr differs ↦ ground (arith, get-prune_recent_issuances p now window m u)
    ]

abbrev refusal_after : SessionStoreLimits → ℕ → List ℕ → ℕ
refusal_after limits now ts =
    retry_after_window limits now (minimum (window_ends limits.issuance_window ts))

refused_lem :
    (limits : SessionStoreLimits) (now n : ℕ) (ts : List ℕ)
    → admit_issuance limits now (some ts) ≡ err (rate_limited n)
    → (limits.max_issuances_per_window ≤ length ts) × (n ≡ refusal_after limits now ts)
refused_lem limits now n ts h =
    elim (Bool-cases (leb limits.max_issuances_per_window (length ts))) [
      | inl e ↦ let h' = rw e at h in (ground arith, cc)
      | inr e ↦ let h' = rw e at h in absurd cc
    ]

kept_admitted :
    (limits : SessionStoreLimits) (now t window : ℕ) (ts : List ℕ)
    → length (retain_recent t window ts) < limits.max_issuances_per_window
    → admit_issuance limits now (kept t window (some ts)) ≡ ok tt
kept_admitted limits now t window ts h = elim (Bool-cases (is_empty (retain_recent t window ts))) [
  | inl e ↦ rw e refl
  | inr e ↦ rw e (ground arith)
]

-- A refusal for the issuances in the window ends as advised.
pub admit_issuance_after :
    (limits : SessionStoreLimits) (now n : ℕ) (ts : List ℕ)
    → 1 ≤ limits.max_issuances_per_window
    → length ts ≤ limits.max_issuances_per_window
    → WindowsFit limits.issuance_window ts
    → admit_issuance limits now (some ts) ≡ err (rate_limited n)
    → let t = after_seconds now n in
      admit_issuance limits t (kept t limits.issuance_window (some ts)) ≡ ok tt
admit_issuance_after limits now n ts positive within fit h =
    let window = limits.issuance_window in
    let (full, advised) = refused_lem limits now n ts h in
    let t = after_seconds now n in
    elim (Option-cases (minimum (window_ends window ts))) [
      | inl g ↦ absurd (omega (arith, full, minimum-eq-none window ts fit g))
      | inr (e, g) ↦
          let n_is : n ≡ retry_after_duration e now = rw g at advised in
          let late : e ≤ t =
            rw n_is (retry_after_duration_enough e now (minimum_fits window ts e fit g)) in
          kept_admitted limits t t window ts
            (omega (arith, minimum_leaves window ts e t fit g late, within))
    ]
