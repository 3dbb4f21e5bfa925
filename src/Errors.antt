-- ===== src/Errors.antt =====
-- The error types of src/error.rs that the server hands to its clients. Rendered messages of
-- foreign errors (`source`, `message` of operating system, SQLite and upstream errors) are texts.
use lfs_cloud.Prelude.{ℕ, Option}
use lfs_cloud.Prelude.Text.{Text}

pub data RepositoryPermission : Type 0 where
  read write admin : RepositoryPermission

pub data RepositoryProviderError : Type 0 where
  authentication_required : Text → RepositoryProviderError
  permission_denied : Text → Text → Text → RepositoryPermission → RepositoryProviderError
  repository_not_found : Text → Text → Text → RepositoryProviderError
  sso_required : Text → Text → RepositoryProviderError
  unsupported : Text → RepositoryProviderError
  upstream : Text → Option ℕ → Text → RepositoryProviderError

pub data StorageError : Type 0 where
  repository_namespace_mismatch : Text → StorageError
  credential_load : Text → Text → Text → StorageError
  authentication_required : Text → StorageError
  permission_denied : Text → Text → StorageError
  -- provider, oid, size
  object_not_found : Text → Text → ℕ → StorageError
  conflict : Text → Text → StorageError
  quota_exceeded : Text → Text → StorageError
  -- expected oid and size, actual oid and size
  integrity_mismatch : Text → ℕ → Text → ℕ → StorageError
  staged_file_read : Text → Text → Text → StorageError
  retryable : Text → Text → StorageError
  unsupported : Text → StorageError
  upstream : Text → Option ℕ → Text → StorageError

pub data ServerError : Type 0 where
  default_config_home_unavailable : Text → ServerError
  config_initialize : Text → Text → ServerError
  config_read : Text → Text → ServerError
  config_parse : Text → Text → ServerError
  invalid_configuration : Text → ServerError
  metadata_directory_create : Text → Text → ServerError
  metadata_open : Text → Text → ServerError
  metadata_configure : Text → Text → ServerError
  metadata_schema_too_new : Text → ℕ → ℕ → ServerError
  metadata_migration : Text → Text → ServerError
  metadata_operation : Text → Text → ServerError
  metadata_connection_poisoned : Text → ServerError
  metadata_task_join : Text → Text → ServerError
  server_lock : Text → Text → ServerError
  server_already_running : Text → ServerError
  bind : Text → ℕ → Text → ServerError
  local_address : Text → ServerError
  serve : Text → ServerError
  route_not_configured : Text → ServerError
  invalid_request : Text → ServerError
  rate_limited : ℕ → ServerError
  internal : Text → ServerError
  unauthorized : Text → ServerError
  repository_provider : RepositoryProviderError → ServerError
  storage : StorageError → ServerError

-- What an error is about, `ErrorCategory`.
pub data ErrorCategory : Type 0 where
  cli server repository_provider storage migration : ErrorCategory
