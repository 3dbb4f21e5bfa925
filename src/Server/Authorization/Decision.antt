-- ===== src/Server/Authorization/Decision.antt =====
-- When `LfsServerState::authorize` of src/server/request.rs lets a request through.
use lfs_cloud.Prelude.{
  ℕ, ◌≡◌, ◌↔◌, ◌⊎◌, refl, inl, inr, true, false, none, [], ◌∷◌, ltb, if◌then◌else◌, Result, ok, err,
  Bool-cases, Option-cases, arith,
}
use lfs_cloud.Errors.{ServerError}
use lfs_cloud.Sessions.{LfsSessionToken}
use lfs_cloud.Server.Authorization.{
  AuthorizationCacheKey, Cache, expiry_of, remove, authorization_is_cached, is_unauthenticated,
  revoked, after_provider, ask_provider, authorize,
}

expiry_of-remove :
    (key : AuthorizationCacheKey) (cache : Cache) → expiry_of key (remove key cache) ≡ none
unfolding expiry_of remove
expiry_of-remove key [] = refl
expiry_of-remove key ((other, expiry) ∷ cache) = ground (arith, expiry_of-remove key cache)

-- A look that misses leaves nothing for the next one.
is_cached-missed :
    (t0 t1 : ℕ) (key : AuthorizationCacheKey) (cache : Cache)
    → (authorization_is_cached t0 key cache).0 ≡ false
    → (authorization_is_cached t1 key (authorization_is_cached t0 key cache).1).0 ≡ false
unfolding authorization_is_cached
is_cached-missed t0 t1 key cache h = elim (Option-cases (expiry_of key cache)) [
  | inl e ↦ rw (e, e) refl
  | inr (expiry, e) ↦ elim (Bool-cases (ltb t0 expiry)) [
    | inl f ↦ absurd (ground arith)
    | inr f ↦ rw (e, f, expiry_of-remove key cache) refl
  ]
]

module _ {Store : Type 0} (revoke : LfsSessionToken → Store → Result ServerError Store) where
  after_provider-ok_iff :
      (result : Result ServerError (Unit {0})) (token : LfsSessionToken) (store : Store)
      → ((after_provider revoke result token store).0 ≡ ok tt) ↔ (result ≡ ok tt)
  unfolding after_provider
  after_provider-ok_iff (ok tt) token store = (λ h. refl, λ h. refl)
  after_provider-ok_iff (err e) token store =
      (λ h. absurd (refused (revoke token store) h), λ h. absurd cc)
    where
      refused :
          (r : Result ServerError Store)
          → (if is_unauthenticated (err e)
              then revoked revoke r (err e) store
              else (err e, store)).0
            ≡ ok tt
          → ⊥
      refused (ok after) h = ground arith
      refused (err x) h = ground arith

  -- A request is authorized exactly if its key is cached and not expired, or a provider call is
  -- permitted and the provider grants it.
  pub authorize-ok_iff :
      (t0 t1 t2 : ℕ) (permit provider : Result ServerError (Unit {0})) (key : AuthorizationCacheKey)
      (cache : Cache) (store : Store)
      → ((authorize revoke (t0, t1, t2) permit provider key cache store).0 ≡ ok tt) ↔ (
          ((authorization_is_cached t0 key cache).0 ≡ true)
          ⊎ ((permit ≡ ok tt) × (provider ≡ ok tt)))
  unfolding authorize
  authorize-ok_iff t0 t1 t2 permit provider key cache store =
      elim (Bool-cases (authorization_is_cached t0 key cache).0) [
        | inl hit ↦ (λ _. inl hit, λ _. rw hit refl)
        | inr miss ↦
            let again = is_cached-missed t0 t1 key cache miss in
            (
              λ h. inr (asked permit (ground arith)),
              λ h. rw (miss, again) (granted permit (ground arith)),
            )
      ]
    where
      looked : Cache
      looked = (authorization_is_cached t1 key (authorization_is_cached t0 key cache).1).1

      asked :
          (p : Result ServerError (Unit {0}))
          → (ask_provider revoke t2 p provider key looked store).0 ≡ ok tt
          → (p ≡ ok tt) × (provider ≡ ok tt)
      asked (err e) h = absurd (cc)
      asked (ok tt) h = (refl, (after_provider-ok_iff provider key.session_token store).0 h)

      granted :
          (p : Result ServerError (Unit {0}))
          → (p ≡ ok tt) × (provider ≡ ok tt)
          → (ask_provider revoke t2 p provider key looked store).0 ≡ ok tt
      granted (err e) h = absurd cc
      granted (ok tt) h = (after_provider-ok_iff provider key.session_token store).1 h.1
