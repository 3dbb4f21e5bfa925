-- ===== src/Server/Repository.antt =====
-- `RepositoryMapping` of src/server_config/repository.rs: a repository and the store it maps to.
use lfs_cloud.Prelude.{◌++◌}
use lfs_cloud.Prelude.Text.{Text, codes}

pub record RepositoryMapping : Type 0 where
  pub id : Text
  pub repo_provider : Text
  pub host : Text
  pub owner : Text
  pub name : Text
  pub provider_repository_id : Text
  pub storage_provider : Text

unfoldable pub route_path : RepositoryMapping → Text
route_path r =
    codes "/" ++ r.host ++ codes "/" ++ r.owner ++ codes "/" ++ r.name ++ codes ".git/info/lfs"
