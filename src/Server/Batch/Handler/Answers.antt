-- ===== src/Server/Batch/Handler/Answers.antt =====
-- What a batch request is answered: which status, and what for each of its objects.
use lfs_cloud.Prelude.{
  ℕ, ◌≤◌, ◌++◌, ◌≡◌, refl, ◌↔◌, ◌∙◌, ap, inl, inr, true, false, ◌&&◌, Option, none, some, [], ◌∷◌,
  List, map, ltb, length, All, Result, ok, err, Result-cases, Bool-cases, arith,
}
use lfs_cloud.Prelude.Text.{Text, codes}
use lfs_cloud.Prelude.BTreeMap.{insert}
use lfs_cloud.Prelude.Decimal.{to_string}
use lfs_cloud.Errors.{ServerError}
use lfs_cloud.Lfs.Oid.{LfsObject}
use lfs_cloud.Lfs.Batch.Url.{UrlApi, lfs_object_transfer_action_url}
use lfs_cloud.Lfs.Batch.{
  LfsBatchOperation, LfsBatchRequest, LfsBatchObjectResponse, lfs_basic_transfer, download_batch,
  upload_batch, download_response, upload_response, with_actions, with_error, download, upload,
}
use lfs_cloud.Server.Repository.{RepositoryMapping, route_path}
use lfs_cloud.Server.Batch.Response.{
  Response, json, content_type, git_lfs_json_response, git_lfs_json_error_response,
  git_lfs_authorization_error_response, refusal-status, classify_lfs_storage_error,
  lfs_batch_object_error_from_server_error,
}
use lfs_cloud.Server.Batch.Credentials.{
  Base64, with_session_action_authorization, basic_authorization, authorize_actions,
}
use lfs_cloud.Server.Batch.Lookup.{
  StoredObject, download_batch_lookup_outcome, upload_batch_lookup_outcome,
}
use lfs_cloud.Server.Batch.Lookup.Pointwise.{batch_objects-pointwise}
use lfs_cloud.Server.Batch.Handler.{
  AuthenticatedLfsSession, LfsServerState, max_upload_object_bytes, offers_basic, has_oversized,
  is_upload, respond, operate, download_batch_response_with_storage_lookup,
  upload_batch_response_with_storage_lookup, handle_parsed_lfs_batch_request,
  upload_payload_too_large_response,
}

map-map :
    {A B C : Type 0} (f : A → B) (g : B → C) (h : A → C) (xs : List A)
    → ((x : A) → g (f x) ≡ h x)
    → map g (map f xs) ≡ map h xs
map-map f g h [] e = refl
map-map f g h (x ∷ xs) e = rw (e x, map-map f g h xs e) refl

has_oversized_iff :
    (objects : List LfsObject)
    → (has_oversized objects ≡ false) ↔ All (λ o. o.size ≤ max_upload_object_bytes) objects
unfolding has_oversized
has_oversized_iff [] = (λ _. tt, λ _. refl)
has_oversized_iff (o ∷ objects) = ground (arith, has_oversized_iff objects)

module _ {U : Type 0} (url : UrlApi U) (base64 : Base64) (repository : RepositoryMapping)
    (session : AuthenticatedLfsSession) (state : LfsServerState) (public_url : Text) where
  abbrev bare : LfsObject → LfsBatchObjectResponse
  bare o = record { oid = o.oid; size = o.size; authenticated = none; actions = []; error = none }

  abbrev failed : LfsObject → ℕ → Text → LfsBatchObjectResponse
  failed o code message = record {
    oid = o.oid;
    size = o.size;
    authenticated = none;
    actions = [];
    error = some (record { code = code; message = message });
  }

  -- One action at the URL of the object, with the credentials of the session.
  abbrev offered : Text → LfsObject → LfsBatchObjectResponse
  offered name o = record {
    oid = o.oid;
    size = o.size;
    authenticated = some true;
    actions =
        (
          name,
          record {
            href = lfs_object_transfer_action_url url public_url (route_path repository) o;
            header = (codes "Authorization", basic_authorization base64 session.token) ∷ [];
            expires_at = none;
            expires_in = none;
          },
        )
        ∷ [];
    error = none;
  }

  abbrev unavailable : LfsObject → ServerError → LfsBatchObjectResponse
  unavailable o e = let c = classify_lfs_storage_error e in failed o c.batch_code c.batch_message

  -- What an object is answered, by the operation and by what its lookup gave.
  unfoldable pub answer :
      LfsBatchOperation
      → LfsObject
      → Result ServerError (Option StoredObject)
      → LfsBatchObjectResponse
  answer download o (ok (some _)) = offered (codes "download") o
  answer download o (ok none) = failed o 404 (codes "object not found")
  answer download o (err e) = unavailable o e
  answer upload o (ok (some _)) = bare o
  answer upload o (ok none) = offered (codes "upload") o
  answer upload o (err e) = unavailable o e

  download-answer :
      (o : LfsObject) (found : Result ServerError (Option StoredObject))
      → authorize_actions (basic_authorization base64 session.token) (
          download_response url public_url
            (route_path repository)
            (download_batch_lookup_outcome o found))
        ≡ answer download o found
  unfolding answer download_response download_batch_lookup_outcome with_actions with_error insert
      lfs_batch_object_error_from_server_error
  download-answer o (ok (some s)) = refl
  download-answer o (ok none) = refl
  download-answer o (err e) = refl

  upload-answer :
      (o : LfsObject) (found : Result ServerError (Option StoredObject))
      → authorize_actions (basic_authorization base64 session.token) (
          upload_response url public_url
            (route_path repository)
            (upload_batch_lookup_outcome o found))
        ≡ answer upload o found
  unfolding answer upload_response upload_batch_lookup_outcome with_actions with_error insert
      lfs_batch_object_error_from_server_error
  upload-answer o (ok (some s)) = refl
  upload-answer o (ok none) = refl
  upload-answer o (err e) = refl

  abbrev pub all_answers : LfsBatchOperation → List LfsObject → List LfsBatchObjectResponse
  all_answers operation objects =
      map (λ o. answer operation o (state.lookup_object repository o)) objects

  abbrev pub accepted : List LfsBatchObjectResponse → Response
  accepted objects = record {
    status = 200;
    headers = content_type ∷ [];
    body = json (record { transfer = lfs_basic_transfer; objects = objects });
  }

  authorized_download :
      (objects : List LfsObject)
      → map (authorize_actions (basic_authorization base64 session.token)) (
          map
            (download_response url public_url (route_path repository))
            (map (λ o. download_batch_lookup_outcome o (state.lookup_object repository o)) objects))
        ≡ all_answers download objects
  authorized_download objects =
      ap (map (authorize_actions _)) (map-map _ _ _ objects λ o. refl)
      ∙ map-map _ _ _ objects λ o. download-answer o (state.lookup_object repository o)

  authorized_upload :
      (objects : List LfsObject)
      → map (authorize_actions (basic_authorization base64 session.token)) (
          map
            (upload_response url public_url (route_path repository))
            (map (λ o. upload_batch_lookup_outcome o (state.lookup_object repository o)) objects))
        ≡ all_answers upload objects
  authorized_upload objects =
      ap (map (authorize_actions _)) (map-map _ _ _ objects λ o. refl)
      ∙ map-map _ _ _ objects λ o. upload-answer o (state.lookup_object repository o)

  respond-operate :
      (operation : LfsBatchOperation) (request : LfsBatchRequest)
      → respond url base64 session.token
          (operate url base64 operation repository state public_url request)
        ≡ some (accepted (all_answers operation request.objects))
  unfolding download_batch_response_with_storage_lookup upload_batch_response_with_storage_lookup
      git_lfs_json_response with_session_action_authorization download_batch upload_batch
  respond-operate download request =
      rw
        (batch_objects-pointwise (state.lookup_object repository) request.objects
          download_batch_lookup_outcome)
        (ap (λ objects. some (accepted objects)) (authorized_download request.objects))
  respond-operate upload request =
      rw
        (batch_objects-pointwise (state.lookup_object repository) request.objects
          upload_batch_lookup_outcome)
        (ap (λ objects. some (accepted objects)) (authorized_upload request.objects))

  -- A request within the limits that is authorized is answered for each of its objects in order, by
  -- the table above: an available object has a download action, an absent one an upload action,
  -- each with the credentials of the session, and a failed lookup spoils no other answer.
  pub handle-accepted :
      (request : LfsBatchRequest)
      → length request.objects ≤ state.max_batch_objects
      → offers_basic request.transfers ≡ true
      → (is_upload request.operation ≡ true
          → All (λ o. o.size ≤ max_upload_object_bytes) request.objects)
      → state.authorize repository session request.operation ≡ ok tt
      → handle_parsed_lfs_batch_request url base64 repository session state public_url request
        ≡ some (accepted (all_answers request.operation request.objects))
  unfolding handle_parsed_lfs_batch_request
  handle-accepted request few basic small allowed =
      rw allowed (
        ground
          (arith, has_oversized_iff request.objects, respond-operate request.operation request))

  abbrev too_many : Response
  too_many = git_lfs_json_error_response 413 (
      codes "Git LFS batch contains more than "
      ++ to_string state.max_batch_objects
      ++ codes " object entries")

  abbrev not_basic : Response
  not_basic =
      git_lfs_json_error_response 409
        (codes "unsupported Git LFS transfer requested; only basic is available")

  -- The handler always responds, and with success exactly for the requests above.
  pub handle-ok_iff :
      (request : LfsBatchRequest)
      → (r : Response) × (handle_parsed_lfs_batch_request url base64 repository session state
            public_url request
          ≡ some r)
        × ((r.status ≡ 200) ↔ (
            (length request.objects ≤ state.max_batch_objects)
            × (offers_basic request.transfers ≡ true)
            × (is_upload request.operation ≡ true
                → All (λ o. o.size ≤ max_upload_object_bytes) request.objects)
            × (state.authorize repository session request.operation ≡ ok tt)))
  unfolding handle_parsed_lfs_batch_request git_lfs_json_error_response
      upload_payload_too_large_response
  handle-ok_iff request =
      let oversized = has_oversized_iff request.objects in
      elim (Bool-cases (ltb state.max_batch_objects (length request.objects))) [
        | inl e ↦ (too_many, rw e refl, (λ h. absurd (omega arith), λ c. absurd (ground arith)))
        | inr e ↦ elim (Bool-cases (offers_basic request.transfers)) [
          | inr f ↦
              (not_basic, rw (e, f) refl, (λ h. absurd (omega arith), λ c. absurd (ground arith)))
          | inl f ↦
              elim (Bool-cases (is_upload request.operation && has_oversized request.objects)) [
                | inl g ↦ (
                  upload_payload_too_large_response,
                  rw (e, f, g) refl,
                  (λ h. absurd (omega arith), λ c. absurd (ground (arith, oversized))),
                )
                | inr g ↦
                    elim (Result-cases (state.authorize repository session request.operation)) [
                      | inl (_, a) ↦ (
                        accepted (all_answers request.operation request.objects),
                        rw (e, f, g, a) (respond-operate request.operation request),
                        (λ _. (ground arith, f, λ u. ground (arith, oversized), a), λ _. refl),
                      )
                      | inr (x, a) ↦ (
                        git_lfs_authorization_error_response x,
                        rw (e, f, g, a) refl,
                        (λ h. absurd (omega (arith, refusal-status x)), λ c. absurd (cc)),
                      )
                    ]
              ]
        ]
      ]
