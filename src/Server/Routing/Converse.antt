-- ===== src/Server/Routing/Converse.antt =====
-- A path that spells a configured identity matches its route of src/server/routing.rs.
use lfs_cloud.Prelude.{
  ℕ, ◌+◌, ◌≡◌, refl, sym, ap, subst, ◌∙◌, ◌⊎◌, inl, inr, true, false, some, [], ◌∷◌, ◌++◌, map,
  ◌==◌, any, ok, Bool-cases, append_assoc, arith,
}
use lfs_cloud.Prelude.Text.{
  Text, codes, len, len_utf8, text_eq, text_eq_iff, text_eq_refl, eq_ignore_ascii_case,
  to_lowercase, split_once, trim, trim_start, is_whitespace,
}
use lfs_cloud.Prelude.Text.Split.{strip_prefix-append}
use lfs_cloud.Lfs.Error.{LfsObjectError}
use lfs_cloud.Lfs.Oid
use lfs_cloud.Lfs.Oid.{LfsOid, from_sha256_hex, digest_part}
use lfs_cloud.Server.Repository.{RepositoryMapping, route_path}
use lfs_cloud.Server.Routing.Slices.{split_at_byte, split_at_byte-append}
use lfs_cloud.Server.Routing.{
  ServerConfig, repository_mapping_is_case_insensitive, LfsRouteEndpoint, info, batch, object,
  identity_path, configured_route, path_matches, strip_path_prefix, parse_object_endpoint,
  parse_lfs_route_endpoint,
}
use lfs_cloud.Server.Routing.Matching.{
  Spells, lfs_base, Matches, Names, at_base, at_slash, at_batch, at_object, with_slash,
}

len_utf8-to_lowercase : (c : ℕ) → len_utf8 (to_lowercase c) ≡ len_utf8 c
unfolding to_lowercase
len_utf8-to_lowercase c = ground arith

len_lowercase : (s : Text) → len (map to_lowercase s) ≡ len s
unfolding len
len_lowercase [] = refl
len_lowercase (c ∷ s) = omega (arith, len_utf8-to_lowercase c, len_lowercase s)

eq_ignore_ascii_case-len : (s t : Text) → eq_ignore_ascii_case s t ≡ true → len s ≡ len t
unfolding eq_ignore_ascii_case
eq_ignore_ascii_case-len s t h =
    sym (len_lowercase s)
    ∙ ap len ((text_eq_iff (map to_lowercase s) (map to_lowercase t)).0 h)
    ∙ len_lowercase t

-- An identity takes as many bytes however it is spelled.
pub len-Spells :
    (config : ServerConfig) (r : RepositoryMapping) (i : Text)
    → Spells config r i
    → len i ≡ len (identity_path r)
len-Spells config r i h = elim (Bool-cases (repository_mapping_is_case_insensitive config r)) [
  | inl s ↦ eq_ignore_ascii_case-len i (identity_path r) (ground arith)
  | inr s ↦ ap len ((text_eq_iff i (identity_path r)).0 (ground arith))
]

pub Matches-path_matches :
    (config : ServerConfig) (r : RepositoryMapping) (path configured rest : Text)
    → configured ≡ identity_path r ++ (lfs_base ++ rest)
    → Matches config r rest path
    → path_matches (configured_route config r) path configured ≡ true
unfolding path_matches configured_route
Matches-path_matches config r path configured rest e (i, f, k) =
    let same_len = len-Spells config r i k in
    let at_path : split_at_byte (len (identity_path r)) path ≡ some (i, lfs_base ++ rest) = rw f (
      subst (λ n. split_at_byte n (i ++ (lfs_base ++ rest)) ≡ some (i, lfs_base ++ rest)) same_len
        (split_at_byte-append i (lfs_base ++ rest))) in
    let at_configured : split_at_byte (len (identity_path r)) configured
        ≡ some (identity_path r, lfs_base ++ rest) =
      rw e (split_at_byte-append (identity_path r) (lfs_base ++ rest)) in
    elim (Bool-cases (repository_mapping_is_case_insensitive config r)) [
      | inl s ↦ rw (s, at_path, at_configured) (ground (arith, text_eq_refl (lfs_base ++ rest)))
      | inr s ↦ rw s (
          (text_eq_iff path configured).1 (
            f
            ∙ ap (λ j. j ++ (lfs_base ++ rest)) ((text_eq_iff i (identity_path r)).0 (ground arith))
            ∙ sym e))
    ]

-- Matching is with one rest only.
pub Matches-rest :
    (config : ServerConfig) (r : RepositoryMapping) (path s t : Text)
    → Matches config r s path
    → Matches config r t path
    → s ≡ t
Matches-rest config r path s t (i, e, k) (j, f, l) =
    let n = len-Spells config r i k ∙ sym (len-Spells config r j l) in
    let a = split_at_byte-append i (lfs_base ++ s) in
    let b =
      subst (λ m. split_at_byte m (j ++ (lfs_base ++ t)) ≡ some (j, lfs_base ++ t)) (sym n)
        (split_at_byte-append j (lfs_base ++ t)) in
    let whole : i ++ (lfs_base ++ s) ≡ j ++ (lfs_base ++ t) = sym e ∙ f in
    let both : some (i, lfs_base ++ s) ≡ some (j, lfs_base ++ t) =
      sym a ∙ ap (split_at_byte (len i)) whole ∙ b in
    cc

len-append : (s t : Text) → len (s ++ t) ≡ len s + len t
unfolding len
len-append [] t = omega arith
len-append (c ∷ s) t = omega (arith, len-append s t)

pub Matches-strip_path_prefix :
    (config : ServerConfig) (r : RepositoryMapping) (path s : Text)
    → Matches config r (codes "/" ++ s) path
    → strip_path_prefix (configured_route config r) path ≡ some s
unfolding strip_path_prefix configured_route
Matches-strip_path_prefix config r path s (i, e, k) =
    let candidate = i ++ (lfs_base ++ codes "/") in
    let prefix = route_path r ++ codes "/" in
    let whole : path ≡ candidate ++ s = e ∙ sym (append_assoc i (lfs_base ++ codes "/") s) in
    let same_len : len candidate ≡ len prefix = omega (
      arith,
      len-append i (lfs_base ++ codes "/"),
      len-append (identity_path r) (lfs_base ++ codes "/"),
      len-Spells config r i k,
      ap len (with_slash r (codes "/")),
    ) in
    let cut : split_at_byte (len prefix) path ≡ some (candidate, s) = rw whole (
      subst (λ n. split_at_byte n (candidate ++ s) ≡ some (candidate, s)) same_len
        (split_at_byte-append candidate s)) in
    let fits =
      Matches-path_matches config r candidate prefix (codes "/") (with_slash r (codes "/"))
        (i, refl, k) in
    rw (cut, fits) refl

new-batch : (oid : LfsOid) → Oid.new (codes "batch") ≡ ok oid → ⊥
unfolding Oid.new trim trim_start is_whitespace digest_part split_once from_sha256_hex len
new-batch oid h = cc

new-empty : (oid : LfsOid) → Oid.new [] ≡ ok oid → ⊥
unfolding Oid.new trim trim_start
new-empty oid h = cc

module _ (debug : Text → Text) (display : LfsObjectError → Text) where
  object-endpoint :
      (s : Text) (oid : LfsOid)
      → any (λ c. c == b'/') s ≡ false
      → Oid.new s ≡ ok oid
      → parse_lfs_route_endpoint debug display (codes "objects/" ++ s) ≡ ok (object oid)
  unfolding parse_lfs_route_endpoint parse_object_endpoint
  object-endpoint [] oid l h = absurd (new-empty oid h)
  object-endpoint (c ∷ s) oid l h =
      elim (Bool-cases (text_eq (codes "objects/" ++ (c ∷ s)) (codes "objects/batch"))) [
        | inl b ↦
            let spelled : codes "objects/" ++ (c ∷ s) ≡ codes "objects/batch" =
              (text_eq_iff _ (codes "objects/batch")).0 b in
            let same : c ∷ s ≡ codes "batch" = cc in
            absurd (new-batch oid (subst (λ t. Oid.new t ≡ ok oid) same h))
        | inr b ↦ rw (b, strip_prefix-append (codes "objects/") (c ∷ s), l, h) refl
      ]

  batch-endpoint : parse_lfs_route_endpoint debug display (codes "objects/batch") ≡ ok batch
  unfolding parse_lfs_route_endpoint text_eq
  batch-endpoint = refl

  -- What the rest names is what is parsed, but for the bare slash.
  pub parse-endpoint :
      (s rest : Text) (e : LfsRouteEndpoint)
      → codes "/" ++ s ≡ rest
      → Names rest e
      → (s ≡ []) ⊎ (parse_lfs_route_endpoint debug display s ≡ ok e)
  parse-endpoint s rest e q at_base = absurd cc
  parse-endpoint s rest e q at_slash = inl cc
  parse-endpoint s rest e q at_batch =
      let same : codes "objects/batch" ≡ s = cc in
      inr (subst (λ t. parse_lfs_route_endpoint debug display t ≡ ok batch) same batch-endpoint)
  parse-endpoint s rest e q (at_object t oid l h) =
      let same : codes "objects/" ++ t ≡ s = cc in
      inr (
        subst (λ u. parse_lfs_route_endpoint debug display u ≡ ok (object oid)) same
          (object-endpoint t oid l h))

-- Only the repository itself is named by nothing, or by a slash.
pub Names-info :
    (rest : Text) (e : LfsRouteEndpoint)
    → Names rest e
    → (rest ≡ []) ⊎ (rest ≡ codes "/")
    → e ≡ info
Names-info rest e at_base q = refl
Names-info rest e at_slash q = refl
Names-info rest e at_batch (inl q) = absurd cc
Names-info rest e at_batch (inr q) = absurd cc
Names-info rest e (at_object t oid l h) (inl q) = absurd cc
Names-info rest e (at_object t oid l h) (inr q) = absurd cc
