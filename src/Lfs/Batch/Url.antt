-- ===== src/Lfs/Batch/Url.antt =====
-- `lfs_object_transfer_action_url` of src/lfs.rs, over the operations of the crate `url` it calls.
use lfs_cloud.Prelude.{
  ℕ, Bool, Option, none, some, [], ◌∷◌, ◌++◌, List, ◌==◌, if◌then◌else◌, is_empty,
}
use mathlib.Core.List.{reverse}
use lfs_cloud.Prelude.Text.{Text, codes}
use lfs_cloud.Prelude.Decimal.{to_string}
use lfs_cloud.Lfs.Oid.{LfsObject}

-- `url::Url`: `has_segments` says whether `path_segments_mut` succeeds, and `push` and
-- `pop_if_empty` are what the segments then do to the URL.
pub record UrlApi (U : Type 0) : Type 0 where
  pub parse : Text → Option U
  pub without_query : U → U
  pub has_segments : U → Bool
  pub pop_if_empty : U → U
  pub push : Text → U → U
  pub append_pair : Text → Text → U → U
  pub render : U → Text

-- str::trim_start_matches, trim_end_matches and trim_matches, at a character
unfoldable pub trim_start_matches : ℕ → Text → Text
trim_start_matches d [] = []
trim_start_matches d (c ∷ s) = let rest = trim_start_matches d s in if c == d then rest else c ∷ s

unfoldable pub trim_end_matches : ℕ → Text → Text
trim_end_matches d s = reverse (trim_start_matches d (reverse s))

unfoldable pub trim_matches : ℕ → Text → Text
trim_matches d s = trim_end_matches d (trim_start_matches d s)

abbrev onto_first : ℕ → List Text → List Text
onto_first c [] = (c ∷ []) ∷ []
onto_first c (piece ∷ pieces) = (c ∷ piece) ∷ pieces

-- str::split, at a character
unfoldable pub split : ℕ → Text → List Text
split d [] = [] ∷ []
split d (c ∷ s) = let rest = split d s in if c == d then [] ∷ rest else onto_first c rest

-- The loop over `split('/')` that leaves out empty segments.
unfoldable pub push_segments : {U : Type 0} → UrlApi U → List Text → U → U
push_segments api [] url = url
push_segments api (segment ∷ segments) url =
    let next = if is_empty segment then url else api.push segment url in
    push_segments api segments next

unfoldable pub fallback_url : Text → Text → LfsObject → Text
fallback_url public_url path object =
    trim_end_matches b'/' public_url
    ++ codes "/"
    ++ trim_matches b'/' path
    ++ codes "/objects/"
    ++ object.oid.hex
    ++ codes "?size="
    ++ to_string object.size

unfoldable pub with_object : {U : Type 0} → UrlApi U → Text → LfsObject → U → Text
with_object api path object url =
    let repository =
      push_segments api (split b'/' (trim_matches b'/' path)) (api.pop_if_empty url) in
    let objects = api.push object.oid.hex (api.push (codes "objects") repository) in
    api.render (api.append_pair (codes "size") (to_string object.size) objects)

unfoldable pub lfs_object_transfer_action_url :
    {U : Type 0} → UrlApi U → Text → Text → LfsObject → Text
lfs_object_transfer_action_url api public_url path object =
    elim (api.parse (trim_end_matches b'/' public_url)) [
      | none ↦ fallback_url public_url path object
      | some parsed ↦
          let url = api.without_query parsed in
          if api.has_segments url
          then with_object api path object url
          else fallback_url public_url path object
    ]
