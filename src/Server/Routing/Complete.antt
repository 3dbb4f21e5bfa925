-- ===== src/Server/Routing/Complete.antt =====
-- A path that spells one configured repository resolves to it, src/server/routing.rs.
use lfs_cloud.Prelude.{
  ◌≡◌, refl, sym, ap, subst, ◌∙◌, ◌⊎◌, inl, inr, true, false, ◌||◌, [], ◌∷◌, ◌++◌, List, map, All,
  ◌==◌, leb, if◌then◌else◌, Result, ok, Bool-cases, Option-cases, arith,
}
use mathlib.Core.List.{Memᴰ}
use lfs_cloud.Prelude.Text.{Text, codes, len, text_eq, eq_ignore_ascii_case, to_lowercase}
use lfs_cloud.Errors.{ServerError}
use lfs_cloud.Lfs.Error.{LfsObjectError}
use lfs_cloud.Server.Repository.{RepositoryMapping, route_path}
use lfs_cloud.Server.Routing.{
  ServerConfig, LfsRouteEndpoint, info, ResolvedLfsRoute, ConfiguredLfsRoute, configured_route,
  identity_path, insert_route, sort_routes, routes_of, path_matches, strip_path_prefix, or_next,
  resolve_among, resolve_path, starts_with_slash,
}
use lfs_cloud.Server.Routing.Matching.{
  Matches, Names, at_base, at_slash, at_batch, at_object, path_matches-Matches, with_slash,
  with_slash_none, strip_path_prefix-Matches,
}
use lfs_cloud.Server.Routing.Converse.{
  Matches-path_matches, Matches-rest, Matches-strip_path_prefix, parse-endpoint, Names-info,
}
use lfs_cloud.Server.Routing.Sound.{IsConfigured, routes_of-All}

Names-slash :
    (rest : Text) (e : LfsRouteEndpoint)
    → Names rest e
    → (rest ≡ []) ⊎ ((s : Text) × (codes "/" ++ s ≡ rest))
Names-slash rest e at_base = inl refl
Names-slash rest e at_slash = inr ([], refl)
Names-slash rest e at_batch = inr (codes "objects/batch", refl)
Names-slash rest e (at_object s oid l h) = inr (codes "objects/" ++ s, refl)

module _ (debug : Text → Text) (display : LfsObjectError → Text) (config : ServerConfig)
    (path : Text) where
  -- What the loop makes of one route.
  abbrev tried :
      RepositoryMapping → Result ServerError ResolvedLfsRoute → Result ServerError ResolvedLfsRoute
  tried r next =
      if path_matches (configured_route config r) path (route_path r)
        || path_matches (configured_route config r) path (route_path r ++ codes "/")
      then ok (record { repository = r; endpoint = info })
      else or_next debug display (configured_route config r)
          (strip_path_prefix (configured_route config r) path) next

  tried-suffix :
      (r : RepositoryMapping) (next : Result ServerError ResolvedLfsRoute) (s : Text)
      (e : LfsRouteEndpoint)
      → path_matches (configured_route config r) path (route_path r) ≡ false
      → path_matches (configured_route config r) path (route_path r ++ codes "/") ≡ false
      → Matches config r (codes "/" ++ s) path
      → Names (codes "/" ++ s) e
      → tried r next ≡ ok (record { repository = r; endpoint = e })
  unfolding configured_route
  tried-suffix r next s e base slash k n =
      elim (parse-endpoint debug display s (codes "/" ++ s) e refl n) [
        | inl empty ↦
            let at_slash_too =
              Matches-path_matches config r path (route_path r ++ codes "/") (codes "/")
                (with_slash r (codes "/"))
                (subst (λ t. Matches config r (codes "/" ++ t) path) empty k) in
            absurd (ground arith)
        | inr parsed ↦ rw (base, slash, Matches-strip_path_prefix config r path s k, parsed) refl
      ]

  tried-target :
      (r : RepositoryMapping) (next : Result ServerError ResolvedLfsRoute) (rest : Text)
      (e : LfsRouteEndpoint)
      → Matches config r rest path
      → Names rest e
      → tried r next ≡ ok (record { repository = r; endpoint = e })
  tried-target r next rest e k n =
      elim (Bool-cases (path_matches (configured_route config r) path (route_path r))) [
        | inl b ↦
            let same =
              Matches-rest config r path rest [] k
                (path_matches-Matches config r path (route_path r) [] (with_slash_none r) b) in
            rw (b, Names-info rest e n (inl same)) refl
        | inr b ↦
            elim (Bool-cases
              (path_matches (configured_route config r) path (route_path r ++ codes "/"))) [
                | inl d ↦
                    let same = Matches-rest config r path rest (codes "/") k (
                      path_matches-Matches config r path (route_path r ++ codes "/") (codes "/")
                        (with_slash r (codes "/")) d) in
                    rw (b, d, Names-info rest e n (inr same)) refl
                | inr d ↦ elim (Names-slash rest e n) [
                  | inl empty ↦
                      let at_base_too =
                        Matches-path_matches config r path (route_path r) [] (with_slash_none r)
                          (subst (λ t. Matches config r t path) empty k) in
                      absurd (ground arith)
                  | inr (s, q) ↦
                      tried-suffix r next s e b d (subst (λ t. Matches config r t path) (sym q) k)
                        (subst (λ t. Names t e) (sym q) n)
                ]
              ]
      ]

  -- A route is skipped, or it matches with some rest.
  tried-cases :
      (r : RepositoryMapping) (next : Result ServerError ResolvedLfsRoute)
      → (tried r next ≡ next) ⊎ ((t : Text) × Matches config r t path)
  tried-cases r next =
      elim (Bool-cases (path_matches (configured_route config r) path (route_path r))) [
        | inl b ↦
            inr ([], path_matches-Matches config r path (route_path r) [] (with_slash_none r) b)
        | inr b ↦
            elim (Bool-cases
              (path_matches (configured_route config r) path (route_path r ++ codes "/"))) [
                | inl d ↦ inr (
                  codes "/",
                  path_matches-Matches config r path (route_path r ++ codes "/") (codes "/")
                      (with_slash r (codes "/")) d,
                )
                | inr d ↦ elim (Option-cases (strip_path_prefix (configured_route config r) path)) [
                  | inl o ↦ inl (rw (b, d, o) refl)
                  | inr (s, o) ↦ inr (codes "/" ++ s, strip_path_prefix-Matches config r path s o)
                ]
              ]
      ]

  among-target :
      (r : RepositoryMapping) (rest : Text) (e : LfsRouteEndpoint)
      (routes : List ConfiguredLfsRoute)
      → Matches config r rest path
      → Names rest e
      → ((s : RepositoryMapping) (t : Text)
          → Memᴰ s config.repositories
          → Matches config s t path
          → s ≡ r)
      → All (IsConfigured config) routes
      → Memᴰ (configured_route config r) routes
      → resolve_among debug display routes path ≡ ok (record { repository = r; endpoint = e })
  unfolding resolve_among configured_route
  among-target r rest e [] k n only all m = elim m [ ]
  among-target r rest e (route ∷ routes) k n only all (Memᴰ.head q) =
      subst
        (λ (t : ConfiguredLfsRoute).
          resolve_among debug display (t ∷ routes) path
          ≡ ok (record { repository = r; endpoint = e }))
        q (tried-target r (resolve_among debug display routes path) rest e k n)
  among-target r rest e (route ∷ routes) k n only ((m, q), all) (Memᴰ.tail later) =
      let next = resolve_among debug display routes path in
      let goal : ConfiguredLfsRoute → Type 0 = λ t.
        resolve_among debug display (t ∷ routes) path
        ≡ ok (record { repository = r; endpoint = e }) in
      subst goal (sym q) (elim (tried-cases route.repository next) [
        | inl skipped ↦ skipped ∙ among-target r rest e routes k n only all later
        | inr (t, found) ↦
            let same = only route.repository t m found in
            subst (λ s. tried s next ≡ ok (record { repository = r; endpoint = e })) (sym same)
              (tried-target r next rest e k n)
      ])

insert_route-Mem :
    (x route : ConfiguredLfsRoute) (routes : List ConfiguredLfsRoute)
    → Memᴰ x (route ∷ routes)
    → Memᴰ x (insert_route route routes)
unfolding insert_route
insert_route-Mem x route [] m = m
insert_route-Mem x route (other ∷ routes) m =
    elim (Bool-cases (leb (len other.route_path) (len route.route_path))) [
      | inl e ↦ rw e m
      | inr e ↦ rw e (past (insert_route-Mem x route routes) m)
    ]
  where
    past :
        (Memᴰ x (route ∷ routes) → Memᴰ x (insert_route route routes))
        → Memᴰ x (route ∷ other ∷ routes)
        → Memᴰ x (other ∷ insert_route route routes)
    past further (Memᴰ.head q) = Memᴰ.tail (further (Memᴰ.head q))
    past further (Memᴰ.tail (Memᴰ.head q)) = Memᴰ.head q
    past further (Memᴰ.tail (Memᴰ.tail n)) = Memᴰ.tail (further (Memᴰ.tail n))

sort_routes-Mem :
    (x : ConfiguredLfsRoute) (routes : List ConfiguredLfsRoute)
    → Memᴰ x routes
    → Memᴰ x (sort_routes routes)
unfolding sort_routes
sort_routes-Mem x [] m = elim m [ ]
sort_routes-Mem x (route ∷ routes) (Memᴰ.head q) =
    insert_route-Mem x route (sort_routes routes) (Memᴰ.head q)
sort_routes-Mem x (route ∷ routes) (Memᴰ.tail m) =
    insert_route-Mem x route (sort_routes routes) (Memᴰ.tail (sort_routes-Mem x routes m))

map-Mem :
    (config : ServerConfig) (r : RepositoryMapping) (rs : List RepositoryMapping)
    → Memᴰ r rs
    → Memᴰ (configured_route config r) (map (configured_route config) rs)
map-Mem config r [] m = elim m [ ]
map-Mem config r (s ∷ rs) (Memᴰ.head q) = Memᴰ.head (ap (configured_route config) q)
map-Mem config r (s ∷ rs) (Memᴰ.tail m) = Memᴰ.tail (map-Mem config r rs m)

Matches-slash :
    (config : ServerConfig) (r : RepositoryMapping) (rest path : Text)
    → Matches config r rest path
    → starts_with_slash path ≡ true
unfolding identity_path eq_ignore_ascii_case text_eq to_lowercase
Matches-slash config r rest path ([], q, k) = absurd (ground arith)
Matches-slash config r rest path (c ∷ i, q, k) =
    let first : (c == b'/') ≡ true = ground arith in
    subst (λ p. starts_with_slash p ≡ true) (sym q) first

-- Each endpoint of a configured repository is reached, under any spelling of its identity that the
-- provider allows, if the path spells no other configured repository.
pub resolve_path_complete :
    (debug : Text → Text) (display : LfsObjectError → Text) (config : ServerConfig)
    (r : RepositoryMapping) (path rest : Text) (e : LfsRouteEndpoint)
    → Memᴰ r config.repositories
    → Matches config r rest path
    → Names rest e
    → ((s : RepositoryMapping) (t : Text)
        → Memᴰ s config.repositories
        → Matches config s t path
        → s ≡ r)
    → resolve_path debug display (routes_of config) path
      ≡ ok (record { repository = r; endpoint = e })
unfolding resolve_path routes_of
resolve_path_complete debug display config r path rest e m k n only =
    let reached =
      among-target debug display config path r rest e (routes_of config) k n only
        (routes_of-All config) (sort_routes-Mem _ _ (map-Mem config r config.repositories m)) in
    rw (Matches-slash config r rest path k) reached
