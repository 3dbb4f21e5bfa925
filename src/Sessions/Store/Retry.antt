-- ===== src/Sessions/Store/Retry.antt =====
-- That the delay which src/sessions.rs advises with a refusal is long enough.
use lfs_cloud.Prelude.{
  ℕ, ◌+◌, ◌*◌, ◌≤◌, ◌<◌, ◌≡◌, refl, inl, inr, none, some, [], ◌∷◌, List, map, leb, length, ok, err,
  Bool-cases, Option-cases, All, arith,
}
use lfs_cloud.Prelude.Map.{Map, retain, values}
use lfs_cloud.Prelude.Map.Laws.{length-values, length-retain-le}
use lfs_cloud.Errors.{rate_limited}
use lfs_cloud.Sessions.Clock.{nanos_per_second, i64_bound, retry_after_duration}
use lfs_cloud.Sessions.Admission.{
  LfsSessionRecord, is_active, expiry, minimum, retry_after_session_expiry, admit_session,
}

-- `now` and that many seconds
abbrev pub after_seconds : ℕ → ℕ → ℕ
after_seconds now n = now + n * nanos_per_second

pub retry_after_duration_enough :
    (e now : ℕ)
    → e < i64_bound * nanos_per_second
    → e ≤ after_seconds now (retry_after_duration e now)
unfolding retry_after_duration
retry_after_duration_enough e now h = ground arith

refused_lem :
    (limit now n : ℕ) (sessions : List LfsSessionRecord)
    → admit_session limit now sessions ≡ err (rate_limited n)
    → (limit ≤ length sessions) × (n ≡ retry_after_session_expiry (map expiry sessions) now)
refused_lem limit now n sessions h = elim (Bool-cases (leb limit (length sessions))) [
  | inl e ↦ let h' = rw e at h in (ground arith, cc)
  | inr e ↦ let h' = rw e at h in absurd cc
]

room_lem :
    (limit now : ℕ) (sessions : List LfsSessionRecord)
    → length sessions < limit
    → admit_session limit now sessions ≡ ok tt
room_lem limit now sessions h = ground arith

module _ {K : Type 0} where
  minimum_expires :
      (m : Map K LfsSessionRecord) (e t : ℕ)
      → minimum (map expiry (values m)) ≡ some e
      → e ≤ t
      → length (retain (is_active t) m) < length m
  unfolding minimum retain
  minimum_expires [] e t h late = cc
  minimum_expires ((k, r) ∷ m) e t h late = elim (Bool-cases (is_active t r)) [
    | inr f ↦ rw f (omega (arith, length-retain-le (is_active t) m))
    | inl f ↦ elim (Option-cases (minimum (map expiry (values m)))) [
      | inl g ↦ absurd (ground arith)
      | inr (z, g) ↦ rw f (ground (arith, minimum_expires m z t g))
    ]
  ]

  minimum_bound :
      (m : Map K LfsSessionRecord) (e : ℕ) {b : ℕ}
      → All (λ (entry : K × LfsSessionRecord). (expiry entry.1 < b)) m
      → minimum (map expiry (values m)) ≡ some e
      → e < b
  unfolding minimum
  minimum_bound [] e times h = cc
  minimum_bound ((k, r) ∷ m) e (time, times) h =
      elim (Option-cases (minimum (map expiry (values m)))) [
        | inl g ↦ ground arith
        | inr (z, g) ↦ ground (arith, minimum_bound m z times g)
      ]

  minimum-eq-none :
      (m : Map K LfsSessionRecord) → minimum (map expiry (values m)) ≡ none → length m ≡ 0
  unfolding minimum
  minimum-eq-none [] h = refl
  minimum-eq-none ((k, r) ∷ m) h = elim (Option-cases (minimum (map expiry (values m)))) [
    | inl g ↦ absurd (ground arith)
    | inr (z, g) ↦ absurd (ground arith)
  ]

  -- A refusal for the number of sessions holds until one of them expires, and no longer than advised.
  pub admit_session_after :
      (m : Map K LfsSessionRecord) (limit now n : ℕ)
      → 1 ≤ limit
      → length m ≤ limit
      → All (λ (entry : K × LfsSessionRecord). (expiry entry.1 < i64_bound * nanos_per_second)) m
      → admit_session limit now (values m) ≡ err (rate_limited n)
      → admit_session limit
          (after_seconds now n)
          (values (retain (is_active (after_seconds now n)) m))
        ≡ ok tt
  unfolding retry_after_session_expiry
  admit_session_after m limit now n positive within times h =
      let (full, advised) = refused_lem limit now n (values m) h in
      let t = after_seconds now n in
      elim (Option-cases (minimum (map expiry (values m)))) [
        | inl g ↦ absurd (omega (arith, full, length-values m, minimum-eq-none m g))
        | inr (e, g) ↦
            let small = minimum_bound m e times g in
            let n_is : n ≡ retry_after_duration e now = rw g at advised in
            let late : e ≤ t = rw n_is (retry_after_duration_enough e now small) in
            let left = retain (is_active t) m in
            room_lem limit t (values left)
              (omega (arith, minimum_expires m e t g late, length-values left, within))
      ]
