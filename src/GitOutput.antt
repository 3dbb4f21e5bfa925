-- ===== src/GitOutput.antt =====
-- src/git_output.rs: the paths that `git check-attr -z` reports as Git LFS files.
use lfs_cloud.Prelude.{
  Bool, not, ◌&&◌, [], ◌∷◌, List, all, is_empty, if◌then◌else◌, Result, ok, err, ◌>>=◌,
}
use lfs_cloud.Prelude.Text.{codes, text_eq}
use lfs_cloud.Prelude.Paths.{PathBuf, components, is_absolute, is_normal, split_at}
use lfs_cloud.Server.Staging.Body.{Bytes}

pub data GitPathOutputError : Type 0 where
  malformed_attribute_output path_outside_worktree : GitPathOutputError

unfoldable pub safe_git_relative_path : Bytes → Result GitPathOutputError PathBuf
safe_git_relative_path relative_path =
    let path = components relative_path in
    if not (is_absolute path) && (not (is_empty path) && all is_normal path)
    then ok path
    else err path_outside_worktree

abbrev pub is_lfs : Bytes → Bytes → Bool
is_lfs attribute value = text_eq attribute (codes "filter") && text_eq value (codes "lfs")

abbrev pub push_path :
    Bool
    → Bytes
    → Result GitPathOutputError (List PathBuf)
    → Result GitPathOutputError (List PathBuf)
push_path lfs relative_path rest =
    if lfs
    then safe_git_relative_path relative_path >>= (λ path. rest >>= λ paths. ok (path ∷ paths))
    else rest

-- The loop, over the fields that are left.
unfoldable pub parse_triples : List Bytes → Result GitPathOutputError (List PathBuf)
parse_triples [] = ok []
parse_triples ([] ∷ []) = ok []
parse_triples ([] ∷ _ ∷ _) = err malformed_attribute_output
parse_triples ((b ∷ path) ∷ []) = err malformed_attribute_output
parse_triples ((b ∷ path) ∷ _ ∷ []) = err malformed_attribute_output
parse_triples ((b ∷ path) ∷ attribute ∷ value ∷ fields) =
    push_path (is_lfs attribute value) (b ∷ path) (parse_triples fields)

unfoldable pub parse_lfs_filter_attribute_paths : Bytes → Result GitPathOutputError (List PathBuf)
parse_lfs_filter_attribute_paths stdout = parse_triples (split_at 0 stdout)
