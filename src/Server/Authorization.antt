-- ===== src/Server/Authorization.antt =====
-- The authorization cache of src/server/request.rs. A cache is touched under its lock, so each
-- operation is one step; the arguments `now` are what the clock says, in milliseconds.
pub mod History
pub mod Decision
mod Tests
use lfs_cloud.Prelude.{
  ℕ, ◌+◌, Bool, true, false, not, ◌&&◌, Option, none, some, [], ◌∷◌, List, ltb, if◌then◌else◌,
  Result, ok, err,
}
use lfs_cloud.Prelude.Text.{Text, text_eq}
use lfs_cloud.Errors
use lfs_cloud.Errors.{ServerError, RepositoryProviderError}
use lfs_cloud.Sessions.{LfsSessionToken}
use lfs_cloud.Lfs.Batch.{LfsBatchOperation}
use lfs_cloud.Server.Repository.{RepositoryMapping}
use lfs_cloud.Server.Batch.Handler.{AuthenticatedLfsSession, is_upload}

pub record AuthorizationCacheKey : Type 0 where
  pub session_token : LfsSessionToken
  pub repository_id : Text
  pub write : Bool

abbrev pub authorization_cache_ttl : ℕ
authorization_cache_ttl = 15_000

abbrev pub same_bool : Bool → Bool → Bool
same_bool true b = b
same_bool false b = not b

unfoldable pub key_eq : AuthorizationCacheKey → AuthorizationCacheKey → Bool
key_eq a b =
    text_eq a.session_token.secret b.session_token.secret
    && text_eq a.repository_id b.repository_id
    && same_bool a.write b.write

-- `HashMap<AuthorizationCacheKey, Instant>`
abbrev pub Cache : Type 0
Cache = List (AuthorizationCacheKey × ℕ)

unfoldable pub expiry_of : AuthorizationCacheKey → Cache → Option ℕ
expiry_of key [] = none
expiry_of key ((other, expiry) ∷ cache) =
    let rest = expiry_of key cache in if key_eq key other then some expiry else rest

unfoldable pub remove : AuthorizationCacheKey → Cache → Cache
remove key [] = []
remove key ((other, expiry) ∷ cache) =
    let rest = remove key cache in if key_eq key other then rest else (other, expiry) ∷ rest

-- `cache.retain(|_, expiry| *expiry > now)`
unfoldable pub retain_unexpired : ℕ → Cache → Cache
retain_unexpired now [] = []
retain_unexpired now ((key, expiry) ∷ cache) =
    let rest = retain_unexpired now cache in if ltb now expiry then (key, expiry) ∷ rest else rest

abbrev pub cached_until : ℕ → AuthorizationCacheKey → Cache → Option ℕ → Bool × Cache
cached_until now key cache none = (false, cache)
cached_until now key cache (some expiry) =
    if ltb now expiry then (true, cache) else (false, remove key cache)

unfoldable pub authorization_is_cached : ℕ → AuthorizationCacheKey → Cache → Bool × Cache
authorization_is_cached now key cache = cached_until now key cache (expiry_of key cache)

-- What is cached when the provider has answered.
unfoldable pub remember : ℕ → AuthorizationCacheKey → Result ServerError (Unit {0}) → Cache → Cache
remember now key (err e) cache = cache
remember now key (ok _) cache =
    (key, now + authorization_cache_ttl) ∷ remove key (retain_unexpired now cache)

abbrev pub key_of :
    RepositoryMapping → AuthenticatedLfsSession → LfsBatchOperation → AuthorizationCacheKey
key_of repository session operation = record {
  session_token = session.token;
  repository_id = repository.id;
  write = is_upload operation;
}

abbrev pub is_unauthenticated_source : RepositoryProviderError → Bool
is_unauthenticated_source (RepositoryProviderError.authentication_required _) = true
is_unauthenticated_source _ = false

abbrev pub is_unauthenticated_error : ServerError → Bool
is_unauthenticated_error (ServerError.repository_provider source) = is_unauthenticated_source source
is_unauthenticated_error _ = false

abbrev pub is_unauthenticated : Result ServerError (Unit {0}) → Bool
is_unauthenticated (ok _) = false
is_unauthenticated (err e) = is_unauthenticated_error e

-- `Store` is the session store, whose `revoke` may fail.
module _ {Store : Type 0} (revoke : LfsSessionToken → Store → Result ServerError Store) where
  abbrev pub revoked :
      Result ServerError Store
      → Result ServerError (Unit {0})
      → Store
      → Result ServerError (Unit {0}) × Store
  revoked (err e) result store = (err e, store)
  revoked (ok after) result store = (result, after)

  unfoldable pub after_provider :
      Result ServerError (Unit {0})
      → LfsSessionToken
      → Store
      → Result ServerError (Unit {0}) × Store
  after_provider result token store =
      if is_unauthenticated result
      then revoked (revoke token store) result store
      else (result, store)

  abbrev pub ask_provider :
      ℕ
      → Result ServerError (Unit {0})
      → Result ServerError (Unit {0})
      → AuthorizationCacheKey
      → Cache
      → Store
      → Result ServerError (Unit {0}) × Cache × Store
  ask_provider now (err e) result key cache store = (err e, cache, store)
  ask_provider now (ok _) result key cache store =
      let (answer, after) = after_provider result key.session_token store in
      (answer, remember now key result cache, after)

  -- `LfsServerState::authorize` with no other request in between: the clock at the two looks into
  -- the cache and after the provider, whether a provider call was permitted, and its answer.
  unfoldable pub authorize :
      ℕ × ℕ × ℕ
      → Result ServerError (Unit {0})
      → Result ServerError (Unit {0})
      → AuthorizationCacheKey
      → Cache
      → Store
      → Result ServerError (Unit {0}) × Cache × Store
  authorize (t0, t1, t2) permit provider key cache store =
      let (hit, looked) = authorization_is_cached t0 key cache in
      let (hit_again, looked_again) = authorization_is_cached t1 key looked in
      let asked = ask_provider t2 permit provider key looked_again store in
      if hit
      then (ok tt, looked, store)
      else if hit_again
      then (ok tt, looked_again, store)
      else asked
