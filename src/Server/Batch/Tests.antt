-- ===== src/Server/Batch/Tests.antt =====
-- Batch requests at work, and the theorems on them at concrete requests.
use lfs_cloud.Prelude.{
  ℕ, ◌-◌, ◌+◌, ◌≤◌, ◌<◌, ◌≡◌, refl, ap, ◌↔◌, true, Option, none, some, [], ◌∷◌, ◌++◌, List, map,
  all, length, All, Result, ok, err, arith, any, if◌then◌else◌,
}
use lfs_cloud.Prelude.Text.{Text, codes, text_eq, text_ltb, len, trim, trim_start, is_whitespace}
use lfs_cloud.Prelude.Text.Trim.{solid}
use lfs_cloud.Prelude.Utf8.{is_byte}
use lfs_cloud.Errors.{ServerError, storage, retryable}
use lfs_cloud.Errors
use lfs_cloud.Sessions.{LfsSessionToken, from_secret, validate_lfs_session_secret}
use lfs_cloud.Lfs.Oid.{LfsObject}
use lfs_cloud.Lfs.Batch.{LfsBatchRequest, download, sha256}
use lfs_cloud.Lfs.Batch.Url.{UrlApi}
use lfs_cloud.Server.Repository.{RepositoryMapping}
use lfs_cloud.Server.Batch.Response.{
  Response, lfs_batch_object_error_from_server_error, git_lfs_storage_error_response,
  git_lfs_download_storage_error_response,
}
use lfs_cloud.Server.Batch.Lookup.{
  StoredObject, batch_objects_with_storage_lookup, batch_objects_with_lookups,
  download_batch_lookup_outcome,
}
use lfs_cloud.Server.Batch.Lookup.Pointwise.{batch_objects-pointwise}
use lfs_cloud.Server.Batch.Lookup.Objects.{unique_objects, object_eq, object_ltb, insert_object}
use lfs_cloud.Server.Batch.Lookup.Order.{occurrences, batch_objects-asked_once}
use lfs_cloud.Server.Batch.Credentials.{
  Base64, basic_authorization, lfs_session_token_from_authorization_header,
}
use lfs_cloud.Server.Batch.Credentials.RoundTrip.{lfs_session_token-basic_authorization}
use lfs_cloud.Server.Batch.Handler.{
  AuthenticatedLfsSession, LfsServerState, offers_basic, is_upload, max_upload_object_bytes,
  handle_parsed_lfs_batch_request,
}
use lfs_cloud.Server.Batch.Handler.Answers.{handle-accepted, handle-ok_iff, accepted, all_answers}
use lfs_cloud.Server.Batch.Agreement.{error_code-status, is_mismatch}

abbrev small : LfsObject
small = record { oid = record { hex = codes "aa" }; size = 3 }

abbrev large : LfsObject
large = record { oid = record { hex = codes "bb" }; size = 6_000_000_000 }

abbrev stored : LfsObject → Result ServerError (Option StoredObject)
stored o = ok (
    some (record {
      provider_id = codes "drive";
      repository_namespace = codes "github";
      object = o;
      backend_id = codes "1";
    }))

-- A small object is there, and the store fails for a large one.
abbrev lookup : LfsObject → Result ServerError (Option StoredObject)
lookup o =
    if text_eq o.oid.hex (codes "aa")
    then stored o
    else err (storage (retryable (codes "drive") (codes "busy")))

abbrev requested : List LfsObject
requested = large ∷ small ∷ large ∷ []

unique-requested : unique_objects requested ≡ small ∷ large ∷ []
unfolding unique_objects insert_object object_eq object_ltb text_eq text_ltb
unique-requested = refl

batch_objects-pointwise_example :
    batch_objects_with_storage_lookup lookup requested download_batch_lookup_outcome
    ≡ some (map (λ o. download_batch_lookup_outcome o (lookup o)) requested)
batch_objects-pointwise_example =
    batch_objects-pointwise lookup requested download_batch_lookup_outcome

batch_objects-asked_once_example :
    occurrences large (batch_objects_with_lookups lookup requested download_batch_lookup_outcome).0
    ≡ (if any (object_eq large) requested then 1 else 0)
batch_objects-asked_once_example =
    batch_objects-asked_once lookup download_batch_lookup_outcome large requested

abbrev shift : List ℕ → Text
shift [] = []
shift (b ∷ bytes) = (b + 0x100) ∷ shift bytes

abbrev unshift : Text → List ℕ
unshift [] = []
unshift (c ∷ s) = (c - 0x100) ∷ unshift s

-- A code with the properties of base64: each byte moved to a visible character.
abbrev shifted : Base64
shifted = record { encode = shift; decode = λ s. some (unshift s) }

unshift-shift : (bytes : List ℕ) → unshift (shift bytes) ≡ bytes
unshift-shift [] = refl
unshift-shift (b ∷ bytes) = ground (arith, unshift-shift bytes)

shift-solid : (bytes : List ℕ) → all is_byte bytes ≡ true → all solid (shift bytes) ≡ true
unfolding is_whitespace
shift-solid [] h = refl
shift-solid (b ∷ bytes) h = ground (arith, shift-solid bytes)

abbrev token : LfsSessionToken
token = record { secret = codes "lfs-token" }

from_secret-token : from_secret token.secret ≡ ok token
unfolding from_secret validate_lfs_session_secret len trim trim_start is_whitespace
from_secret-token = refl

lfs_session_token-basic_authorization_example :
    lfs_session_token_from_authorization_header shifted
      (some (some (basic_authorization shifted token)))
    ≡ ok token
lfs_session_token-basic_authorization_example =
    lfs_session_token-basic_authorization shifted token from_secret-token refl
      (λ bytes _. ap some (unshift-shift bytes)) shift-solid (λ b bytes. refl)

abbrev mismatch : ServerError
mismatch = storage (Errors.integrity_mismatch (codes "aa") 3 (codes "bb") 3)

error_code-status_example :
    let download = (git_lfs_download_storage_error_response mismatch).status in
    ((lfs_batch_object_error_from_server_error mismatch).code ≡ download)
    × ((git_lfs_storage_error_response mismatch).status
        ≡ (if is_mismatch mismatch then 422 else download))
    × (400 ≤ download)
    × (download < 600)
error_code-status_example = error_code-status mismatch

-- URLs are texts, and segments are appended to them.
abbrev plain_url : UrlApi Text
plain_url = record {
  parse = some;
  without_query = λ u. u;
  has_segments = λ u. true;
  pop_if_empty = λ u. u;
  push = λ segment u. u ++ codes "/" ++ segment;
  append_pair = λ key value u. u ++ codes "?" ++ key ++ codes "=" ++ value;
  render = λ u. u;
}

abbrev repository : RepositoryMapping
repository = record {
  id = codes "github-main:owner/repo";
  repo_provider = codes "github-main";
  host = codes "github.com";
  owner = codes "owner";
  name = codes "repo";
  provider_repository_id = codes "8675309";
  storage_provider = codes "drive";
}

abbrev session : AuthenticatedLfsSession
session = record {
  token = token;
  metadata = record {
    provider_id = codes "github-main";
    login = codes "octocat";
    stable_id = some (codes "42");
    granted_scopes = [];
    issued_at = 0;
    expires_at = 60;
  };
}

abbrev state : LfsServerState
state = record { max_batch_objects = 3; authorize = λ r s o. ok tt; lookup_object = λ r. lookup }

abbrev fetch : LfsBatchRequest
fetch = record {
  operation = download;
  transfers = codes "ssh" ∷ codes "basic" ∷ [];
  ref_context = none;
  hash_algo = sha256;
  objects = requested;
}

offers_basic-fetch : offers_basic fetch.transfers ≡ true
unfolding offers_basic text_eq
offers_basic-fetch = refl

handle-accepted_example :
    handle_parsed_lfs_batch_request plain_url shifted repository session state
      (codes "http://h")
      fetch
    ≡ some (
        accepted plain_url shifted repository session state (codes "http://h") (
          all_answers plain_url shifted repository session state
            (codes "http://h")
            download
            requested))
handle-accepted_example =
    handle-accepted plain_url shifted repository session state (codes "http://h") fetch
      (omega arith) offers_basic-fetch (λ h. cc) refl

handle-ok_iff_example :
    (r : Response) × (handle_parsed_lfs_batch_request plain_url shifted repository session state
        (codes "http://h")
        fetch
      ≡ some r)
    × ((r.status ≡ 200) ↔ (
        (length fetch.objects ≤ state.max_batch_objects)
        × (offers_basic fetch.transfers ≡ true)
        × (is_upload fetch.operation ≡ true
            → All (λ o. o.size ≤ max_upload_object_bytes) fetch.objects)
        × (state.authorize repository session fetch.operation ≡ ok tt)))
handle-ok_iff_example =
    handle-ok_iff plain_url shifted repository session state (codes "http://h") fetch
