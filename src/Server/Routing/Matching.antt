-- ===== src/Server/Routing/Matching.antt =====
-- When a path matches a configured route of src/server/routing.rs, as a relation on texts.
use lfs_cloud.Prelude.{
  ◌≡◌, refl, ap, ◌∙◌, inl, inr, true, false, Option, none, some, [], ◌++◌, ◌==◌, if◌then◌else◌, any,
  ok, Bool-cases, Option-cases, append_assoc, arith,
}
use lfs_cloud.Prelude.Text.{
  Text, codes, len, text_eq, text_eq_iff, text_eq_refl, eq_ignore_ascii_case,
}
use lfs_cloud.Lfs.Oid
use lfs_cloud.Lfs.Oid.{LfsOid}
use lfs_cloud.Server.Repository.{RepositoryMapping, route_path}
use lfs_cloud.Server.Routing.Slices.{split_at_byte, split_at_byte-eq-some, split_at_byte-append}
use lfs_cloud.Server.Routing.{
  ServerConfig, repository_mapping_is_case_insensitive, LfsRouteEndpoint, info, batch, object,
  identity_path, configured_route, second, split_matches, path_matches, strip_path_prefix,
}

-- The text stands for the identity of the repository, by the rules of its provider.
abbrev pub Spells : ServerConfig → RepositoryMapping → Text → Type 0
Spells config r i =
    (if repository_mapping_is_case_insensitive config r
      then eq_ignore_ascii_case i (identity_path r)
      else text_eq i (identity_path r))
    ≡ true

abbrev pub lfs_base : Text
lfs_base = codes ".git/info/lfs"

abbrev pub Matches : ServerConfig → RepositoryMapping → Text → Text → Type 0
Matches config r rest path = (i : Text) × (path ≡ i ++ (lfs_base ++ rest)) × Spells config r i

-- What may follow the base path of a repository, and the endpoint that it names.
pub data Names : Text → LfsRouteEndpoint → Type 0 where
  at_base : Names [] info
  at_slash : Names (codes "/") info
  at_batch : Names (codes "/objects/batch") batch
  at_object :
      (s : Text) (oid : LfsOid)
      → any (λ c. c == b'/') s ≡ false
      → Oid.new s ≡ ok oid
      → Names (codes "/objects/" ++ s) (object oid)

route_path-identity_path : (r : RepositoryMapping) → route_path r ≡ identity_path r ++ lfs_base
unfolding route_path identity_path
route_path-identity_path r = refl

split_matches-eq-true :
    (identity configured : Text) (o : Option (Text × Text))
    → split_matches identity o (some configured) ≡ true
    → (i : Text) × (o ≡ some (i, configured)) × (eq_ignore_ascii_case i identity ≡ true)
split_matches-eq-true identity configured none h = cc
split_matches-eq-true identity configured (some (i, s)) h =
    (i, ap (λ x. some (i, x)) ((text_eq_iff s configured).0 (ground arith)), ground arith)

pub path_matches-Matches :
    (config : ServerConfig) (r : RepositoryMapping) (path configured rest : Text)
    → configured ≡ identity_path r ++ (lfs_base ++ rest)
    → path_matches (configured_route config r) path configured ≡ true
    → Matches config r rest path
unfolding path_matches configured_route
path_matches-Matches config r path configured rest e h =
    elim (Bool-cases (repository_mapping_is_case_insensitive config r)) [
      | inr s ↦ (
        identity_path r,
        (text_eq_iff path configured).0 (ground arith) ∙ e,
        rw s (text_eq_refl (identity_path r)),
      )
      | inl s ↦
          let tail : second (split_at_byte (len (identity_path r)) configured)
              ≡ some (lfs_base ++ rest) =
            rw (e, split_at_byte-append (identity_path r) (lfs_base ++ rest)) refl in
          let (i, f, k) =
            split_matches-eq-true (identity_path r) (lfs_base ++ rest)
              (split_at_byte (len (identity_path r)) path) (ground arith) in
          (i, (split_at_byte-eq-some (len (identity_path r)) path i (lfs_base ++ rest) f).0, rw s k)
    ]

pub with_slash :
    (r : RepositoryMapping) (t : Text) → route_path r ++ t ≡ identity_path r ++ (lfs_base ++ t)
with_slash r t =
    ap (λ s. s ++ t) (route_path-identity_path r) ∙ append_assoc (identity_path r) lfs_base t

pub with_slash_none : (r : RepositoryMapping) → route_path r ≡ identity_path r ++ (lfs_base ++ [])
with_slash_none r = route_path-identity_path r

pub strip_path_prefix-Matches :
    (config : ServerConfig) (r : RepositoryMapping) (path s : Text)
    → strip_path_prefix (configured_route config r) path ≡ some s
    → Matches config r (codes "/" ++ s) path
unfolding strip_path_prefix configured_route
strip_path_prefix-Matches config r path s h =
    elim (Option-cases (split_at_byte (len (route_path r ++ codes "/")) path)) [
      | inl e ↦ absurd (ground arith)
      | inr ((candidate, suffix), e) ↦
          let (whole, _) =
            split_at_byte-eq-some (len (route_path r ++ codes "/")) path candidate suffix e in
          let same : suffix ≡ s = ground arith in
          let (i, f, k) =
            path_matches-Matches config r candidate (route_path r ++ codes "/") (codes "/")
              (with_slash r (codes "/")) (ground arith) in
          (
            i,
            whole
                ∙ ap (λ x. x ++ suffix) f
                ∙ append_assoc i (lfs_base ++ codes "/") suffix
                ∙ ap (λ x. i ++ (lfs_base ++ (codes "/" ++ x))) same,
            k,
          )
    ]
