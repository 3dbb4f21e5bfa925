-- ===== src/Server/Dispatch/Authenticated.antt =====
-- Which requests reach a handler of src/server/request.rs.
use lfs_cloud.Prelude.{
  ◌≡◌, refl, sym, ap, subst, ◌∙◌, inl, inr, Option, some, Result, ok, err, bind-eq-ok, ok_or,
  ok_or-eq-ok, ok-injective, Result-cases, arith,
}
use lfs_cloud.Prelude.Text.{Text}
use lfs_cloud.Errors.{ServerError}
use lfs_cloud.Lfs.Error.{LfsObjectError}
use lfs_cloud.Lfs.Oid.{LfsOid}
use lfs_cloud.Sessions.{LfsSessionToken}
use lfs_cloud.Server.Repository.{RepositoryMapping}
use lfs_cloud.Server.Routing.{
  ServerConfig, LfsRouteEndpoint, info, batch, object, ResolvedLfsRoute, routes_of, resolve_path,
}
use lfs_cloud.Server.Routing.Sound.{IsServed, resolve_path-IsServed}
use lfs_cloud.Server.Batch.Credentials.{
  Base64, lfs_session_token_from_authorization_header, authenticate_lfs_session,
}
use lfs_cloud.Server.Dispatch.{
  Method, get, post, put, other, Target, batch_of, upload_of, download_of, Request,
  handle_lfs_object_request, handle_lfs_batch_request, at_public_url,
  handle_authenticated_lfs_request, handle_lfs_request,
}

module _ {Record : Type 0} where
  abbrev pub session_of : Target Record → LfsSessionToken × Record
  session_of (batch_of repository session url) = session
  session_of (upload_of repository oid session) = session
  session_of (download_of repository oid session) = session

  -- The route and the method that lead to the handler.
  abbrev pub Reaches : Target Record → ResolvedLfsRoute → Request → Type 0
  Reaches (batch_of repository session url) route request =
      (route ≡ record { repository = repository; endpoint = batch })
      × (request.method ≡ post)
      × (request.public_url ≡ ok url)
  Reaches (upload_of repository oid session) route request =
      (route ≡ record { repository = repository; endpoint = object oid }) × (request.method ≡ put)
  Reaches (download_of repository oid session) route request =
      (route ≡ record { repository = repository; endpoint = object oid }) × (request.method ≡ get)

  -- A target for a session on a route.
  Leads : Target Record → ResolvedLfsRoute → Request → LfsSessionToken × Record → Type 0
  Leads target route request session = Reaches target route request × (session_of target ≡ session)

  object_request-Leads :
      (r : RepositoryMapping) (oid : LfsOid) (session : LfsSessionToken × Record)
      (request : Request) (m : Method) (target : Target Record)
      → request.method ≡ m
      → handle_lfs_object_request r oid session m ≡ ok target
      → Leads target (record { repository = r; endpoint = object oid }) request session
  unfolding handle_lfs_object_request Leads
  object_request-Leads r oid session request put target q h =
      let same : upload_of r oid session ≡ target = ground arith in
      subst (λ t. Leads t (record { repository = r; endpoint = object oid }) request session) same
        ((refl, q), refl)
  object_request-Leads r oid session request get target q h =
      let same : download_of r oid session ≡ target = ground arith in
      subst (λ t. Leads t (record { repository = r; endpoint = object oid }) request session) same
        ((refl, q), refl)
  object_request-Leads r oid session request post target q h = cc
  object_request-Leads r oid session request (other name) target q h = cc

  batch_request-Leads :
      (r : RepositoryMapping) (session : LfsSessionToken × Record) (request : Request) (m : Method)
      (url : Result ServerError Text) (target : Target Record)
      → request.method ≡ m
      → request.public_url ≡ url
      → at_public_url r session m url ≡ ok target
      → Leads target (record { repository = r; endpoint = batch }) request session
  unfolding handle_lfs_batch_request Leads
  batch_request-Leads r session request post (ok url) target q u h =
      let same : batch_of r session url ≡ target = ground arith in
      subst (λ t. Leads t (record { repository = r; endpoint = batch }) request session) same
        ((refl, q, u), refl)
  batch_request-Leads r session request get (ok url) target q u h = cc
  batch_request-Leads r session request put (ok url) target q u h = cc
  batch_request-Leads r session request (other name) (ok url) target q u h = cc
  batch_request-Leads r session request m (err e) target q u h = absurd (ground arith)

  authenticated_request-Leads :
      (r : RepositoryMapping) (endpoint : LfsRouteEndpoint) (session : LfsSessionToken × Record)
      (request : Request) (target : Target Record)
      → handle_authenticated_lfs_request r endpoint session request ≡ ok target
      → Leads target (record { repository = r; endpoint = endpoint }) request session
  unfolding handle_authenticated_lfs_request
  authenticated_request-Leads r batch session request target h =
      batch_request-Leads r session request request.method request.public_url target refl refl h
  authenticated_request-Leads r (object oid) session request target h =
      object_request-Leads r oid session request request.method target refl h
  authenticated_request-Leads r info session request target h = cc

module _ (debug : Text → Text) (display : LfsObjectError → Text) (base64 : Base64) {Record : Type 0}
    (verify_record : LfsSessionToken → Option Record) (config : ServerConfig)
    (request : Request) where
  -- A request reaches a handler only if its path names that endpoint of a configured repository, its
  -- method is the one of the handler, and its header holds the token of a session that the store
  -- verifies; the handler gets that repository and that session.
  pub handle_lfs_request-authenticated :
      (target : Target Record)
      → handle_lfs_request debug display base64 verify_record (routes_of config) request ≡ ok target
      → (route : ResolvedLfsRoute) × IsServed config request.path route
        × Reaches target route request
        × (lfs_session_token_from_authorization_header base64 request.authorization
            ≡ ok (session_of target).0)
        × (verify_record (session_of target).0 ≡ some (session_of target).1)
  unfolding handle_lfs_request authenticate_lfs_session Leads
  handle_lfs_request-authenticated target h =
      elim (Result-cases (resolve_path debug display (routes_of config) request.path)) [
        | inr (e, q) ↦ absurd (ground arith)
        | inl (route, q) ↦
            elim (Result-cases
              (authenticate_lfs_session base64 verify_record request.authorization)) [
                | inr (e, a) ↦ absurd (ground arith)
                | inl (session, a) ↦
                    let (reaches, same) =
                      authenticated_request-Leads route.repository route.endpoint session request
                        target (ground arith) in
                    let (token, read, rest) =
                      bind-eq-ok
                        (lfs_session_token_from_authorization_header base64 request.authorization) _
                        a in
                    let (found, verified, pair) =
                      bind-eq-ok (ok_or (verify_record token) _) _ rest in
                    let both : (token, found) ≡ session_of target = ok-injective pair ∙ sym same in
                    (
                      route,
                      resolve_path-IsServed config debug display request.path route q,
                      reaches,
                      read ∙ ap (λ (s : LfsSessionToken × Record). ok s.0) both,
                      subst (λ (s : LfsSessionToken × Record). verify_record s.0 ≡ some s.1) both
                          (ok_or-eq-ok (verify_record token) _ verified),
                    )
              ]
      ]
