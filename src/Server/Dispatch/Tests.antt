-- ===== src/Server/Dispatch/Tests.antt =====
-- Requests on their way to a handler, and the theorems on them.
use lfs_cloud.Prelude.{
  ℕ, ◌≤◌, ◌≡◌, ◌↔◌, refl, false, Option, some, [], ◌∷◌, List, ok, length, arith,
}
use lfs_cloud.Prelude.Text.{
  Text, codes, len, text_eq, to_lowercase, eq_ignore_ascii_case, trim, trim_start, is_whitespace,
}
use lfs_cloud.Prelude.BTreeMap.{get}
use lfs_cloud.Lfs.Error.{LfsObjectError}
use lfs_cloud.Sessions.{LfsSessionToken, from_secret, validate_lfs_session_secret}
use lfs_cloud.Server.Repository.{RepositoryMapping, route_path}
use lfs_cloud.Server.Routing.Slices.{split_at_byte}
use lfs_cloud.Server.Routing.{
  ServerConfig, github, ResolvedLfsRoute, identity_path, configured_route, insert_route,
  sort_routes, routes_of, path_matches, strip_path_prefix, parse_lfs_route_endpoint, resolve_among,
  resolve_path, repository_mapping_is_case_insensitive,
}
use lfs_cloud.Server.Routing.Sound.{IsServed}
use lfs_cloud.Server.Batch.Credentials.{
  Base64, lfs_session_token_from_authorization_header, authenticate_lfs_session,
  authorization_credentials, split_at_whitespace,
}
use lfs_cloud.Server.Staging.Body.{Bytes}
use lfs_cloud.Server.Dispatch.{
  post, Target, batch_of, Request, handle_lfs_batch_request, handle_authenticated_lfs_request,
  handle_lfs_request,
}
use lfs_cloud.Server.Dispatch.Authenticated.{session_of, Reaches, handle_lfs_request-authenticated}
use lfs_cloud.Server.Dispatch.BatchBody
use lfs_cloud.Server.Dispatch.BatchBody.{
  Yields, exceeds, read_batch_request_body, read_batch_request_body_iff,
}

abbrev repository : RepositoryMapping
repository = record {
  id = codes "r";
  repo_provider = codes "github-main";
  host = codes "h";
  owner = codes "o";
  name = codes "n";
  provider_repository_id = codes "1";
  storage_provider = codes "drive";
}

abbrev config : ServerConfig
config = record {
  repository_providers = (codes "github-main", github (codes "github-main")) ∷ [];
  repositories = repository ∷ [];
}

abbrev debug : Text → Text
debug s = s

abbrev display : LfsObjectError → Text
display e = codes "invalid"

abbrev base64 : Base64
base64 = record { encode = λ s. s; decode = some }

abbrev verify : LfsSessionToken → Option ℕ
verify token = some 7

abbrev request : Request
request = record {
  method = post;
  path = codes "/H/o/n.git/info/lfs/objects/batch";
  authorization = some (some (codes "bearer lfs-token"));
  public_url = ok (codes "http://h");
}

abbrev target : Target ℕ
target = batch_of repository (record { secret = codes "lfs-token" }, 7) (codes "http://h")

reached-target :
    handle_lfs_request debug display base64 verify (routes_of config) request ≡ ok target
unfolding handle_lfs_request resolve_path routes_of sort_routes insert_route configured_route
    resolve_among path_matches strip_path_prefix split_at_byte parse_lfs_route_endpoint
    identity_path route_path len text_eq to_lowercase eq_ignore_ascii_case
    repository_mapping_is_case_insensitive get authenticate_lfs_session
    lfs_session_token_from_authorization_header authorization_credentials split_at_whitespace trim
    trim_start is_whitespace from_secret validate_lfs_session_secret
    handle_authenticated_lfs_request handle_lfs_batch_request
reached-target = refl

handle_lfs_request-authenticated_example :
    (route : ResolvedLfsRoute) × IsServed config request.path route
    × Reaches target route request
    × (lfs_session_token_from_authorization_header base64 request.authorization
        ≡ ok (session_of target).0)
    × (verify (session_of target).0 ≡ some (session_of target).1)
handle_lfs_request-authenticated_example =
    handle_lfs_request-authenticated debug display base64 verify config request target
      reached-target

abbrev body : Bytes
body = 1 ∷ 2 ∷ 3 ∷ []

abbrev events : List BatchBody.Event
events = BatchBody.chunk (1 ∷ []) ∷ BatchBody.chunk (2 ∷ 3 ∷ []) ∷ []

read_batch_request_body_iff_example :
    (read_batch_request_body 3 (some 3) events ≡ ok body)
    ↔ ((exceeds 3 (some 3) ≡ false) × Yields events body × (length body ≤ 3))
read_batch_request_body_iff_example =
    read_batch_request_body_iff 3 (some 3) events body (omega arith)
