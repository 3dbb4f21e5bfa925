-- ===== src/Server/Routing.antt =====
-- `LfsRouteResolver` of src/server/routing.rs: from a request path to a repository and an endpoint.
pub mod Slices
pub mod Matching
pub mod Converse
pub mod Sound
pub mod Complete
mod Tests
use lfs_cloud.Prelude.{
  ℕ, Bool, true, false, not, ◌&&◌, ◌||◌, Option, none, some, [], ◌∷◌, ◌++◌, List, map, ◌==◌, ltb,
  leb, if◌then◌else◌, any, is_empty, Result, ok, err,
}
use lfs_cloud.Prelude.Text.{Text, codes, len, text_eq, strip_prefix, eq_ignore_ascii_case}
use lfs_cloud.Prelude.BTreeMap.{BTreeMap, get}
use lfs_cloud.Errors.{ServerError, invalid_request, route_not_configured}
use lfs_cloud.Lfs.Error.{LfsObjectError}
use lfs_cloud.Lfs.Oid
use lfs_cloud.Lfs.Oid.{LfsOid}
use lfs_cloud.Server.Repository.{RepositoryMapping, route_path}
use lfs_cloud.Server.Routing.Slices.{split_at_byte}

-- A GitHub provider, with its identifier: the one kind of provider.
pub data RepositoryProviderConfig : Type 0 where
  github : Text → RepositoryProviderConfig

-- The fields of `ServerConfig` that the resolver reads.
pub record ServerConfig : Type 0 where
  pub repository_providers : BTreeMap RepositoryProviderConfig
  pub repositories : List RepositoryMapping

abbrev pub route_identity_is_case_insensitive : RepositoryProviderConfig → Bool
route_identity_is_case_insensitive (github _) = true

abbrev pub is_some_and_insensitive : Option RepositoryProviderConfig → Bool
is_some_and_insensitive none = false
is_some_and_insensitive (some provider) = route_identity_is_case_insensitive provider

unfoldable pub repository_mapping_is_case_insensitive : ServerConfig → RepositoryMapping → Bool
repository_mapping_is_case_insensitive config r =
    is_some_and_insensitive (get r.repo_provider config.repository_providers)

pub data LfsRouteEndpoint : Type 0 where
  info batch : LfsRouteEndpoint
  object : LfsOid → LfsRouteEndpoint

pub record ResolvedLfsRoute : Type 0 where
  pub repository : RepositoryMapping
  pub endpoint : LfsRouteEndpoint

pub record ConfiguredLfsRoute : Type 0 where
  pub repository_identity_path : Text
  pub route_path : Text
  pub route_path_with_slash : Text
  pub case_insensitive_identity : Bool
  pub repository : RepositoryMapping

unfoldable pub identity_path : RepositoryMapping → Text
identity_path r = codes "/" ++ r.host ++ codes "/" ++ r.owner ++ codes "/" ++ r.name

unfoldable pub configured_route : ServerConfig → RepositoryMapping → ConfiguredLfsRoute
configured_route config r = record {
  repository_identity_path = identity_path r;
  route_path = route_path r;
  route_path_with_slash = route_path r ++ codes "/";
  case_insensitive_identity = repository_mapping_is_case_insensitive config r;
  repository = r;
}

-- `sort_by`, which is stable: longer paths first, and those of one length as they came.
unfoldable pub insert_route : ConfiguredLfsRoute → List ConfiguredLfsRoute → List ConfiguredLfsRoute
insert_route route [] = route ∷ []
insert_route route (other ∷ routes) =
    let rest = insert_route route routes in
    if leb (len other.route_path) (len route.route_path)
    then route ∷ other ∷ routes
    else other ∷ rest

unfoldable pub sort_routes : List ConfiguredLfsRoute → List ConfiguredLfsRoute
sort_routes [] = []
sort_routes (route ∷ routes) = insert_route route (sort_routes routes)

-- `LfsRouteResolver::new`
unfoldable pub routes_of : ServerConfig → List ConfiguredLfsRoute
routes_of config = sort_routes (map (configured_route config) config.repositories)

abbrev pub second : Option (Text × Text) → Option Text
second none = none
second (some (_, rest)) = some rest

-- The comparison of a candidate, split at the length of the identity, with what is configured.
abbrev pub split_matches : Text → Option (Text × Text) → Option Text → Bool
split_matches identity none configured = false
split_matches identity (some (candidate_identity, candidate_suffix)) none = false
split_matches identity (some (candidate_identity, candidate_suffix)) (some configured_suffix) =
    eq_ignore_ascii_case candidate_identity identity && text_eq candidate_suffix configured_suffix

unfoldable pub path_matches : ConfiguredLfsRoute → Text → Text → Bool
path_matches route candidate configured =
    let identity_length = len route.repository_identity_path in
    let insensitive =
      split_matches route.repository_identity_path (split_at_byte identity_length candidate)
        (second (split_at_byte identity_length configured)) in
    if not route.case_insensitive_identity then text_eq candidate configured else insensitive

abbrev pub matched_suffix : ConfiguredLfsRoute → Option (Text × Text) → Option Text
matched_suffix route none = none
matched_suffix route (some (candidate, suffix)) =
    if path_matches route candidate route.route_path_with_slash then some suffix else none

unfoldable pub strip_path_prefix : ConfiguredLfsRoute → Text → Option Text
strip_path_prefix route path =
    matched_suffix route (split_at_byte (len route.route_path_with_slash) path)

abbrev pub starts_with_slash : Text → Bool
starts_with_slash [] = false
starts_with_slash (c ∷ path) = c == b'/'

-- `debug` is the `{:?}` of a text, and `display` renders an error of an identifier.
module _ (debug : Text → Text) (display : LfsObjectError → Text) where
  abbrev pub object_endpoint : Result LfsObjectError LfsOid → Result ServerError LfsRouteEndpoint
  object_endpoint (ok oid) = ok (object oid)
  object_endpoint (err source) =
      err (invalid_request (codes "invalid LFS object id in route: " ++ display source))

  unfoldable pub parse_object_endpoint : Text → Option Text → Result ServerError LfsRouteEndpoint
  parse_object_endpoint suffix none =
      err (invalid_request (codes "unsupported LFS endpoint " ++ debug suffix))
  parse_object_endpoint suffix (some oid) =
      if any (λ c. c == b'/') oid || is_empty oid
      then err (invalid_request (codes "unsupported LFS object endpoint " ++ debug suffix))
      else object_endpoint (Oid.new oid)

  unfoldable pub parse_lfs_route_endpoint : Text → Result ServerError LfsRouteEndpoint
  parse_lfs_route_endpoint suffix =
      if text_eq suffix (codes "objects/batch")
      then ok batch
      else parse_object_endpoint suffix (strip_prefix (codes "objects/") suffix)

  abbrev pub resolved :
      RepositoryMapping → Result ServerError LfsRouteEndpoint → Result ServerError ResolvedLfsRoute
  resolved repository (ok endpoint) = ok (record { repository = repository; endpoint = endpoint })
  resolved repository (err e) = err e

  abbrev pub or_next :
      ConfiguredLfsRoute
      → Option Text
      → Result ServerError ResolvedLfsRoute
      → Result ServerError ResolvedLfsRoute
  or_next route none next = next
  or_next route (some suffix) next = resolved route.repository (parse_lfs_route_endpoint suffix)

  unfoldable pub resolve_among :
      List ConfiguredLfsRoute → Text → Result ServerError ResolvedLfsRoute
  resolve_among [] path = err (route_not_configured path)
  resolve_among (route ∷ routes) path =
      let next = resolve_among routes path in
      if path_matches route path route.route_path
        || path_matches route path route.route_path_with_slash
      then ok (record { repository = route.repository; endpoint = info })
      else or_next route (strip_path_prefix route path) next

  unfoldable pub resolve_path : List ConfiguredLfsRoute → Text → Result ServerError ResolvedLfsRoute
  resolve_path routes path =
      if not (starts_with_slash path)
      then err (invalid_request (codes "route path must start with '/'"))
      else resolve_among routes path
