-- ===== src/Server/Dispatch.antt =====
-- The way of a request to its handler, src/server/request.rs: routing, authentication, the method,
-- and for a batch the reading of its body. The handlers themselves are in Batch and Upload.
pub mod Authenticated
pub mod BatchBody
mod Tests
use lfs_cloud.Prelude.{
  ℕ, Bool, true, false, Option, none, some, [], ◌∷◌, ◌++◌, List, if◌then◌else◌, Result, ok, err,
}
use lfs_cloud.Prelude.Text.{Text, codes}
use lfs_cloud.Errors.{ServerError}
use lfs_cloud.Lfs.Error.{LfsObjectError}
use lfs_cloud.Lfs.Oid.{LfsOid}
use lfs_cloud.Sessions.{LfsSessionToken}
use lfs_cloud.Server.Repository.{RepositoryMapping}
use lfs_cloud.Server.Routing.{
  ConfiguredLfsRoute, LfsRouteEndpoint, info, batch, object, ResolvedLfsRoute, resolve_path,
}
use lfs_cloud.Server.Batch.Response.{
  Response, git_lfs_json_error_response, authentication_required_response,
}
use lfs_cloud.Server.Batch.Credentials.{Base64, authenticate_lfs_session}

-- `http::Method`
pub data Method : Type 0 where
  get post put : Method
  other : Text → Method

-- The handler that a request reaches, with what it is called with.
pub data Target (Record : Type 0) : Type 0 where
  batch_of : RepositoryMapping → LfsSessionToken × Record → Text → Target Record
  upload_of download_of : RepositoryMapping → LfsOid → LfsSessionToken × Record → Target Record

-- `public_url` is what `public_url_for_request` gives.
pub record Request : Type 0 where
  pub method : Method
  pub path : Text
  pub authorization : Option (Option Text)
  pub public_url : Result ServerError Text

unfoldable pub not_allowed : Text → Text → Response
not_allowed text allow =
    let response = git_lfs_json_error_response 405 text in
    record {
      status = response.status;
      headers = response.headers ++ (codes "allow", allow) ∷ [];
      body = response.body;
    }

abbrev pub unauthenticated : ServerError → Response
unauthenticated (ServerError.unauthorized _) = authentication_required_response
unauthenticated _ = git_lfs_json_error_response 500 (codes "LFS Cloud authentication failed")

module _ {Record : Type 0} where
  unfoldable pub handle_lfs_object_request :
      RepositoryMapping
      → LfsOid
      → LfsSessionToken × Record
      → Method
      → Result Response (Target Record)
  handle_lfs_object_request repository oid session put = ok (upload_of repository oid session)
  handle_lfs_object_request repository oid session get = ok (download_of repository oid session)
  handle_lfs_object_request repository oid session _ = err (
      not_allowed (codes "Git LFS object endpoint requires GET for downloads or PUT for uploads")
        (codes "GET, PUT"))

  -- The method of `handle_lfs_batch_request`.
  unfoldable pub handle_lfs_batch_request :
      RepositoryMapping → LfsSessionToken × Record → Method → Text → Result Response (Target Record)
  handle_lfs_batch_request repository session post public_url =
      ok (batch_of repository session public_url)
  handle_lfs_batch_request repository session _ public_url =
      err (not_allowed (codes "Git LFS batch endpoint requires POST") (codes "POST"))

  abbrev pub at_public_url :
      RepositoryMapping
      → LfsSessionToken × Record
      → Method
      → Result ServerError Text
      → Result Response (Target Record)
  at_public_url repository session method (ok url) =
      handle_lfs_batch_request repository session method url
  at_public_url repository session method (err _) =
      err (git_lfs_json_error_response 500 (codes "LFS Cloud could not determine its action URL"))

  unfoldable pub handle_authenticated_lfs_request :
      RepositoryMapping
      → LfsRouteEndpoint
      → LfsSessionToken × Record
      → Request
      → Result Response (Target Record)
  handle_authenticated_lfs_request repository batch session request =
      at_public_url repository session request.method request.public_url
  handle_authenticated_lfs_request repository (object oid) session request =
      handle_lfs_object_request repository oid session request.method
  handle_authenticated_lfs_request repository info session request = err (
      git_lfs_json_error_response 404
        (codes "Git LFS base path is not an operation endpoint; use /objects/batch"))

  abbrev pub at_session :
      ResolvedLfsRoute
      → Request
      → Result ServerError (LfsSessionToken × Record)
      → Result Response (Target Record)
  at_session route request (ok session) =
      handle_authenticated_lfs_request route.repository route.endpoint session request
  at_session route request (err e) = err (unauthenticated e)

abbrev pub unrouted : ServerError → Response
unrouted (ServerError.route_not_configured _) =
    git_lfs_json_error_response 404
      (codes "No configured LFS Cloud repository route matches this path")
unrouted (ServerError.invalid_request _) =
    git_lfs_json_error_response 400 (codes "Invalid LFS Cloud route")
unrouted _ = git_lfs_json_error_response 500 (codes "LFS Cloud route handling failed")

module _ (debug : Text → Text) (display : LfsObjectError → Text) (base64 : Base64) {Record : Type 0}
    (verify_record : LfsSessionToken → Option Record) where
  abbrev pub at_route :
      Request → Result ServerError ResolvedLfsRoute → Result Response (Target Record)
  at_route request (ok route) =
      at_session route request (authenticate_lfs_session base64 verify_record request.authorization)
  at_route request (err e) = err (unrouted e)

  unfoldable pub handle_lfs_request :
      List ConfiguredLfsRoute → Request → Result Response (Target Record)
  handle_lfs_request routes request =
      at_route request (resolve_path debug display routes request.path)
