-- ===== src/GitHubAuth.antt =====
-- `GitHubPersonalAccessToken` of src/github_auth.rs.
use lfs_cloud.Prelude.{
  ◌||◌, not, ◌++◌, ◌==◌, ltb, if◌then◌else◌, any, is_empty, Result, ok, err, ◌>>=◌,
}
use lfs_cloud.Prelude.Text.{Text, codes, len, trim, is_whitespace}
use lfs_cloud.Errors.{ServerError, invalid_request}
use lfs_cloud.Sessions.{is_control}

pub record GitHubPersonalAccessToken : Type 0 where
  pub secret : Text

unfoldable pub validate_sensitive_github_value : Text → Text → Result ServerError Text
validate_sensitive_github_value value label =
    let trimmed = trim value in
    if ltb 1024 (len value)
    then err (invalid_request (label ++ codes " must not exceed 1024 bytes"))
    else if is_empty trimmed || not (len trimmed == len value)
    then err (invalid_request (label ++ codes " must not be blank or padded"))
    else if any (λ c. is_whitespace c || is_control c) value
    then err (invalid_request (label ++ codes " must not contain whitespace or control characters"))
    else ok value

-- `GitHubPersonalAccessToken::from_secret`
unfoldable pub github_pat_from_secret : Text → Result ServerError GitHubPersonalAccessToken
github_pat_from_secret secret =
    validate_sensitive_github_value secret (codes "github personal access token") >>= λ value.
    ok (record { secret = value })
