-- ===== src/Lib.antt =====
-- LFS Cloud: a Git LFS server that keeps objects in cloud storage and asks the repository provider
-- who may read and write them. Of this program the library models what stands between a request
-- and the storage: identifiers and pointer files, the resolution of paths, authentication,
-- authorization, the batch API, the staging of uploads, the upload and download handlers, the
-- sessions whose tokens authenticate requests, and the resumable upload to Google Drive; and, of
-- the client, the garbage collection of its cache.
--
-- How the parts interact. A request path is resolved to a configured repository and an endpoint
-- (Server/Routing), its session token is read from the Authorization header (Server/Batch/
-- Credentials), and the operation is authorized, by the provider or from the cache (Server/
-- Authorization). A batch request is answered for each of its objects by what a lookup in the
-- storage gives (Server/Batch); the actions in the answer carry the header that the next request
-- is authenticated by. An upload waits in a temporary file for its verification, within limits on
-- the number of uploads and on disk space that a coordinator shares between them (Server/Staging);
-- the upload handler (Server/Upload) records the attempt, looks for the object, has the body
-- staged and hands it to the storage, and the download handler (Server/Download) records the
-- attempt and answers with the stored object. Server/Dispatch leads a request through routing,
-- authentication and method to its handler. Google Drive finds an object by a query for its key
-- (GoogleDrive/ObjectKey), and gets it in chunks, of which it says how far it has committed them
-- (GoogleDrive/Upload). The tokens are issued, verified and revoked by a store in memory that
-- writes each session to the database as well (Sessions/Store, Sessions/Durable), within limits on
-- the sessions and their issuance (Sessions/Admission). The client keeps objects in a cache that
-- several worktrees share; a collection asks git for their pointer files (LocalCache/Pointers),
-- walks the cache (LocalCache/Objects), and removes what no pointer refers to
-- (LocalCache/GarbageCollection). Identifiers and payloads are those of the Git LFS protocol
-- (Lfs).
--
-- Which file models which part (paths of the repository):
--   Prelude           what the others share: tests, lists and `Result` over the native numbers, and
--                     of Rust's standard library `str` (Text), decimal numbers, UTF-8,
--                     `BTreeMap<String, _>`, `HashMap` as a list without repeated keys
--                     (Map), and `Path` on Unix (Paths)
--   Errors            src/error.rs: the errors that the server maps to responses
--   Lfs/Error, Oid    src/lfs.rs: `LfsObjectError`, `LfsOid` and `LfsObject`; `new` is `LfsOid::new`
--   Lfs/Pointer       src/lfs.rs: `LfsPointer`, with `parse`, `to_pointer_file` and
--                     `insert_extension`; Pointer/Extension has the helpers for extension records
--   Lfs/Batch         src/lfs.rs: `LfsBatchRequest`, `LfsBatchResponse` and what they consist of;
--                     Batch/Url is `lfs_object_transfer_action_url`
--   Sessions          src/sessions.rs: `LfsSessionToken::from_secret` and session metadata; Clock has
--                     the arithmetic of `SystemTime`, Admission `enforce_session_admission`, Store
--                     `LocalLfsSessionStore`, TokenKey `LfsSessionTokenKey`, and Durable
--                     `DurableLfsSessionStore` with the table of src/metadata/sessions.rs
--   GitHubAuth        src/github_auth.rs: `GitHubPersonalAccessToken::from_secret`
--   Server/Repository src/server_config/repository.rs: `RepositoryMapping`
--   Server/Routing    src/server/routing.rs: `LfsRouteResolver`; `routes_of` is its `new`
--   Server/Authorization
--                     src/server/request.rs: `LfsServerState::authorize` and its cache
--   Server/Dispatch   src/server/request.rs: `handle_lfs_request`, up to the handler that a request
--                     reaches; BatchBody is `read_batch_request_body`
--   Server/Upload     src/server/request.rs: `handle_lfs_upload_request`; the calls that it makes of
--                     the database and the storage are a list, and their answers `Services`
--   Server/Download   src/server/request.rs: `handle_lfs_download_request`, with the calls that it
--                     makes of the database
--   Server/Batch      src/server/batch.rs: Handler is `handle_parsed_lfs_batch_request`, Lookup is
--                     `batch_objects_with_storage_lookup`, Response and Credentials the rest
--   Server/Staging    src/server/staging.rs: Coordinator is `UploadStagingCoordinator` with its
--                     leases and reservations, World its calls in a row, Interleaving their parts in any
--                     order, Body the loop over the request body, Stage the whole of
--                     `stage_upload_request_body_with_lease`
--   GitOutput         src/git_output.rs: `parse_lfs_filter_attribute_paths`
--   LocalCache        src/local_cache: the errors and the places of objects; Registry is registry.rs,
--                     Pointers, Objects and GarbageCollection are garbage_collection.rs, and Disk has
--                     what the file system and git answer
--   GoogleDrive/ObjectKey
--                     src/google_drive/object_key.rs: `GoogleDriveObjectKey`, the properties and the
--                     query by which Drive finds an object; Query has a reader of Drive's queries
--   GoogleDrive/Diagnostics
--                     src/google_drive/diagnostics.rs and upload.rs: the classification of errors
--   GoogleDrive/Upload
--                     src/google_drive/object_store.rs: the loop of `upload_verified_object` and
--                     `verify_drive_object_file` (Verification); src/google_drive/upload.rs: the answers to chunks
--                     and probes, and `recover_drive_resumable_upload`
-- Modules named Tests hold runs on concrete inputs and the theorems at such inputs.
--
-- How state and effects are modelled. Shared state is a record that each operation takes and gives
-- back; an operation under one lock is one step. An upload takes and gives back its permits and
-- its reservation one after another: Staging/Interleaving runs these parts of all uploads in any
-- order. Staging/World, Stage and Upload run the calls of the coordinator as a whole, so what is
-- said of them is said of calls that do not overlap. Authorization/History runs any sequence of
-- looks into the cache and answers of the provider, so that its theorem holds for every
-- interleaving; so does Sessions/Store/Events with the calls of the session store, each under the
-- lock of the store. The answers of Drive to an upload are a function from the number of the
-- request, and the upload gives the chunks that it sent. A garbage collection reads a disk that
-- its locks keep still, and gives the list of what it changes. `Result` is the source's; `none` in
-- place of a result is a panic. A `Drop` is a function that the owner calls where the value goes
-- out of scope.
--
-- What is an argument. The crates url and base64 are records of operations (`UrlApi`, `Base64`),
-- and a theorem that needs more of base64 than its type says so in its hypotheses. SHA-256,
-- AES-GCM, the free space, the clock, tokens and nonces, what JSON means, the answers of the
-- database and of Drive, what the file system and git answer, canonical paths, the answers of the
-- storage and of the provider, the failures of the operating system, the chunks of a request body,
-- and the rendered messages of errors are arguments too.
--
-- Bounds. Text is a list of Unicode scalar values, and its length counts UTF-8 bytes as `str::len`
-- does. A u64 is a natural number, with the test against 2 ^ 64 where the source checks an
-- addition or parses. Decimal rendering runs on 20 digits of fuel, enough for each u64. The loop
-- of an upload runs on fuel for its rounds: five for each byte and five more are enough, since of
-- five rounds in a row one commits a byte or the upload ends. The recovery attempts are counted
-- down from four where the source counts them up. All other loops are structural. A `SystemTime`
-- is a number of nanoseconds since the epoch, with the seconds of an i64 as the bound of its
-- additions; an `Instant` has none.
--
-- What is not modelled: JSON, HTTP and TLS (serde, axum, hyper), tracing, the command line, git
-- processes, and the Google Drive and GitHub clients are calls of libraries and services. The
-- rest of the metadata database, the session key file, the session handler of the server, downloads
-- from Drive, the copying of objects into and out of the cache of the client, migration and
-- configuration files are parts of the program that this library does not
-- have yet. The lock per authorization key,
-- the lock per uploaded object and the limit of concurrent provider calls are left out: they order
-- requests, and do not change what one step does.
pub mod Prelude
pub mod Errors
pub mod Sessions
pub mod Lfs
pub mod Server
pub mod GoogleDrive
pub mod GitHubAuth
pub mod GitOutput
pub mod LocalCache
