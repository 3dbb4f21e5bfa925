-- ===== src/Server/Authorization/Tests.antt =====
-- Authorizations over time, and the theorems on them.
use lfs_cloud.Prelude.{
  ℕ, ◌+◌, ◌<◌, ◌≡◌, ◌↔◌, ◌⊎◌, refl, true, false, [], ◌∷◌, List, Result, ok, err,
}
use lfs_cloud.Prelude.Text.{codes, text_eq}
use lfs_cloud.Errors
use lfs_cloud.Errors.{ServerError}
use lfs_cloud.Sessions.{LfsSessionToken}
use lfs_cloud.Server.Authorization.{
  AuthorizationCacheKey, authorization_cache_ttl, key_eq, expiry_of, remove, retain_unexpired,
  authorization_is_cached, remember, authorize,
}
use lfs_cloud.Server.Authorization.History.{
  Event, look, answer, step, replay, Granted, authorization_is_cached-Granted,
}
use lfs_cloud.Server.Authorization.Decision.{authorize-ok_iff}

abbrev reading : AuthorizationCacheKey
reading = record {
  session_token = record { secret = codes "t" };
  repository_id = codes "r";
  write = false;
}

abbrev writing : AuthorizationCacheKey
writing = record {
  session_token = record { secret = codes "t" };
  repository_id = codes "r";
  write = true;
}

-- A refused write and a granted read, before a look at each.
abbrev events : List Event
events =
    look 15_998 writing
    ∷ answer 1000 reading (ok tt)
    ∷ answer 999 writing (err (Errors.rate_limited 1))
    ∷ []

cached-reading : (authorization_is_cached 15_999 reading (replay events)).0 ≡ true
unfolding authorization_is_cached replay step remember remove retain_unexpired expiry_of key_eq
    text_eq
cached-reading = refl

expired-reading : (authorization_is_cached 16_000 reading (replay events)).0 ≡ false
unfolding authorization_is_cached replay step remember remove retain_unexpired expiry_of key_eq
    text_eq
expired-reading = refl

cached-writing : (authorization_is_cached 15_999 writing (replay events)).0 ≡ false
unfolding authorization_is_cached replay step remember remove retain_unexpired expiry_of key_eq
    text_eq
cached-writing = refl

authorization_is_cached-Granted_example :
    (t : ℕ) × Granted events reading t × (15_999 < t + authorization_cache_ttl)
authorization_is_cached-Granted_example =
    authorization_is_cached-Granted events 15_999 reading cached-reading

abbrev keep : LfsSessionToken → List LfsSessionToken → Result ServerError (List LfsSessionToken)
keep token store = ok (token ∷ store)

authorize-ok_iff_example :
    ((authorize keep
        (15_999, 16_001, 16_005)
        (ok tt)
        (err (Errors.rate_limited 1))
        writing
        (replay events)
        []).0
      ≡ ok tt)
    ↔ (((authorization_is_cached 15_999 writing (replay events)).0 ≡ true)
        ⊎ ((◌≡◌ {A = Result ServerError (Unit {0})} (ok tt) (ok tt))
            × (◌≡◌ {A = Result ServerError (Unit {0})} (err (Errors.rate_limited 1)) (ok tt))))
authorize-ok_iff_example =
    authorize-ok_iff keep 15_999 16_001 16_005 (ok tt) (err (Errors.rate_limited 1)) writing
      (replay events) []
