-- ===== src/Server/Routing/Tests.antt =====
-- Paths resolved, and the theorems on them at concrete paths.
use lfs_cloud.Prelude.{◌≡◌, refl, [], ◌∷◌, ◌++◌, ok}
use mathlib.Core.List.{Memᴰ}
use lfs_cloud.Prelude.Text.{Text, codes, len, text_eq, to_lowercase, eq_ignore_ascii_case}
use lfs_cloud.Prelude.BTreeMap.{get}
use lfs_cloud.Lfs.Error.{LfsObjectError}
use lfs_cloud.Server.Repository.{RepositoryMapping, route_path}
use lfs_cloud.Server.Routing.Slices.{split_at_byte}
use lfs_cloud.Server.Routing.{
  ServerConfig, github, repository_mapping_is_case_insensitive, batch, ResolvedLfsRoute,
  identity_path, configured_route, insert_route, sort_routes, routes_of, path_matches,
  strip_path_prefix, parse_lfs_route_endpoint, resolve_among, resolve_path,
}
use lfs_cloud.Server.Routing.Matching.{Matches, at_batch}
use lfs_cloud.Server.Routing.Sound.{IsServed, resolve_path-IsServed}
use lfs_cloud.Server.Routing.Complete.{resolve_path_complete}

abbrev repository : RepositoryMapping
repository = record {
  id = codes "github-main:owner/repo";
  repo_provider = codes "github-main";
  host = codes "github.com";
  owner = codes "owner";
  name = codes "repo";
  provider_repository_id = codes "8675309";
  storage_provider = codes "drive";
}

abbrev config : ServerConfig
config = record {
  repositories = repository ∷ [];
  repository_providers = (codes "github-main", github (codes "github-main")) ∷ [];
}

abbrev debug : Text → Text
debug s = codes "\"" ++ s ++ codes "\""

abbrev display : LfsObjectError → Text
display e = codes "invalid"

abbrev path : Text
path = codes "/GitHub.com/Owner/repo.git/info/lfs/objects/batch"

abbrev route : ResolvedLfsRoute
route = record { repository = repository; endpoint = batch }

resolved-path : resolve_path debug display (routes_of config) path ≡ ok route
unfolding resolve_path repository_mapping_is_case_insensitive get routes_of sort_routes insert_route
    configured_route resolve_among path_matches strip_path_prefix split_at_byte
    parse_lfs_route_endpoint identity_path route_path len text_eq to_lowercase eq_ignore_ascii_case
resolved-path = refl

resolve_path-IsServed_example : IsServed config path route
resolve_path-IsServed_example = resolve_path-IsServed config debug display path route resolved-path

path-Matches : Matches config repository (codes "/objects/batch") path
unfolding repository_mapping_is_case_insensitive get identity_path text_eq to_lowercase
    eq_ignore_ascii_case
path-Matches = (codes "/GitHub.com/Owner/repo", refl, refl)

only_repository : (s : RepositoryMapping) → Memᴰ s (repository ∷ []) → s ≡ repository
only_repository s (Memᴰ.head q) = q
only_repository s (Memᴰ.tail m) = elim m [ ]

resolve_path_complete_example : resolve_path debug display (routes_of config) path ≡ ok route
resolve_path_complete_example =
    resolve_path_complete debug display config repository path (codes "/objects/batch") batch
      (Memᴰ.head refl) path-Matches at_batch (λ s t m k. only_repository s m)
