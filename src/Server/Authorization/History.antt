-- ===== src/Server/Authorization/History.antt =====
-- Where a cached authorization of src/server/request.rs comes from, and how long it lasts.
use lfs_cloud.Prelude.{
  ℕ, ◌+◌, ◌<◌, ◌≡◌, refl, sym, subst, inl, inr, Bool, true, false, some, [], ◌∷◌, List, ltb, Result,
  ok, err, All, Bool-cases, Option-cases, arith,
}
use mathlib.Core.List.{Memᴰ}
use lfs_cloud.Prelude.Text.{text_eq_iff}
use lfs_cloud.Errors.{ServerError}
use lfs_cloud.Server.Authorization.{
  AuthorizationCacheKey, authorization_cache_ttl, key_eq, same_bool, Cache, expiry_of, remove,
  retain_unexpired, authorization_is_cached, remember,
}

-- What requests do to the cache, in the order in which they take its lock.
pub data Event : Type 0 where
  look : ℕ → AuthorizationCacheKey → Event
  answer : ℕ → AuthorizationCacheKey → Result ServerError (Unit {0}) → Event

unfoldable pub step : Event → Cache → Cache
step (look now key) cache = (authorization_is_cached now key cache).1
step (answer now key result) cache = remember now key result cache

-- The last event is the first of the list.
unfoldable pub replay : List Event → Cache
replay [] = []
replay (event ∷ events) = step event (replay events)

-- The provider granted the key at that time.
abbrev pub Granted : List Event → AuthorizationCacheKey → ℕ → Type 0
Granted events key now = Memᴰ (answer now key (ok tt)) events

AuthorizationCacheKey-ext :
    (a b : AuthorizationCacheKey)
    → a.session_token.secret ≡ b.session_token.secret
    → a.repository_id ≡ b.repository_id
    → a.write ≡ b.write
    → a ≡ b
AuthorizationCacheKey-ext a b p q r =
    λ i. record { session_token = record { secret = p i }; repository_id = q i; write = r i }

same_write : (a b : Bool) → same_bool a b ≡ true → a ≡ b
same_write true true h = refl
same_write true false h = cc
same_write false true h = cc
same_write false false h = refl

key_eq_sound : (a b : AuthorizationCacheKey) → key_eq a b ≡ true → a ≡ b
unfolding key_eq
key_eq_sound a b h =
    AuthorizationCacheKey-ext a b
      ((text_eq_iff a.session_token.secret b.session_token.secret).0 (ground arith))
      ((text_eq_iff a.repository_id b.repository_id).0 (ground arith))
      (same_write a.write b.write (ground arith))

-- Every entry stems from a grant, and expires a fixed time after it.
abbrev IsBacked : List Event → AuthorizationCacheKey × ℕ → Type 0
IsBacked events (key, expiry) =
    (t : ℕ) × Granted events key t × (expiry ≡ t + authorization_cache_ttl)

module _ (P : AuthorizationCacheKey × ℕ → Type 0) where
  remove-All :
      (key : AuthorizationCacheKey) (cache : Cache) → All P cache → All P (remove key cache)
  unfolding remove
  remove-All key [] h = tt
  remove-All key ((other, expiry) ∷ cache) (h, hs) = elim (Bool-cases (key_eq key other)) [
    | inl e ↦ rw e (remove-All key cache hs)
    | inr e ↦ rw e (h, remove-All key cache hs)
  ]

  retain_unexpired-All :
      (now : ℕ) (cache : Cache) → All P cache → All P (retain_unexpired now cache)
  unfolding retain_unexpired
  retain_unexpired-All now [] h = tt
  retain_unexpired-All now ((key, expiry) ∷ cache) (h, hs) = elim (Bool-cases (ltb now expiry)) [
    | inl e ↦ rw e (h, retain_unexpired-All now cache hs)
    | inr e ↦ rw e (retain_unexpired-All now cache hs)
  ]

  is_cached-All :
      (now : ℕ) (key : AuthorizationCacheKey) (cache : Cache)
      → All P cache
      → All P (authorization_is_cached now key cache).1
  unfolding authorization_is_cached
  is_cached-All now key cache h = elim (Option-cases (expiry_of key cache)) [
    | inl e ↦ rw e h
    | inr (expiry, e) ↦ elim (Bool-cases (ltb now expiry)) [
      | inl f ↦ rw (e, f) h
      | inr f ↦ rw (e, f) (remove-All key cache h)
    ]
  ]

  expiry_of-All :
      (key : AuthorizationCacheKey) (cache : Cache) (expiry : ℕ)
      → All P cache
      → expiry_of key cache ≡ some expiry
      → P (key, expiry)
  unfolding expiry_of
  expiry_of-All key [] expiry h e = cc
  expiry_of-All key ((other, t) ∷ cache) expiry (h, hs) e = elim (Bool-cases (key_eq key other)) [
    | inl f ↦
        let same : t ≡ expiry = ground arith in
        subst (λ k. P (k, expiry)) (sym (key_eq_sound key other f))
          (subst (λ x. P (other, x)) same h)
    | inr f ↦ expiry_of-All key cache expiry hs (ground arith)
  ]

later-All :
    (event : Event) (events : List Event) (cache : Cache)
    → All (IsBacked events) cache
    → All (IsBacked (event ∷ events)) cache
later-All event events [] h = tt
later-All event events ((key, expiry) ∷ cache) ((t, m, e), hs) =
    ((t, Memᴰ.tail m, e), later-All event events cache hs)

replay-All : (events : List Event) → All (IsBacked events) (replay events)
unfolding replay step remember
replay-All [] = tt
replay-All (look now key ∷ events) =
    is_cached-All (IsBacked (look now key ∷ events)) now key (replay events)
      (later-All (look now key) events (replay events) (replay-All events))
replay-All (answer now key (err e) ∷ events) =
    later-All _ events (replay events) (replay-All events)
replay-All (answer now key (ok tt) ∷ events) =
    let before = later-All (answer now key (ok tt)) events (replay events) (replay-All events) in
    (
      (now, Memᴰ.head refl, refl),
      remove-All (IsBacked (answer now key (ok tt) ∷ events)) key
          (retain_unexpired now (replay events))
          (retain_unexpired-All (IsBacked (answer now key (ok tt) ∷ events)) now (replay events)
            before),
    )

-- However requests interleave, a cached authorization goes back to a grant of the provider for the
-- same session, repository and kind of access, less than the lifetime of the cache ago.
pub authorization_is_cached-Granted :
    (events : List Event) (now : ℕ) (key : AuthorizationCacheKey)
    → (authorization_is_cached now key (replay events)).0 ≡ true
    → (t : ℕ) × Granted events key t × (now < t + authorization_cache_ttl)
unfolding authorization_is_cached
authorization_is_cached-Granted events now key h =
    elim (Option-cases (expiry_of key (replay events))) [
      | inl e ↦ absurd (ground arith)
      | inr (expiry, e) ↦
          let (t, m, f) =
            expiry_of-All (IsBacked events) key (replay events) expiry (replay-All events) e in
          (t, m, ground arith)
    ]
