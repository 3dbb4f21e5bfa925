-- ===== src/Server/Routing/Sound.antt =====
-- What a resolved path says of its repository and endpoint.
use lfs_cloud.Prelude.{
  ◌≡◌, refl, sym, subst, inl, inr, false, ◌||◌, [], ◌∷◌, ◌++◌, List, map, All, ◌==◌, leb,
  if◌then◌else◌, any, Result, ok, Bool-cases, Option-cases, Result-cases, arith,
}
use mathlib.Core.List.{Memᴰ}
use lfs_cloud.Prelude.Text.{Text, codes, len, text_eq, text_eq_iff, strip_prefix}
use lfs_cloud.Prelude.Text.Split.{strip_prefix-eq-some}
use lfs_cloud.Errors.{ServerError}
use lfs_cloud.Lfs.Error.{LfsObjectError}
use lfs_cloud.Lfs.Oid
use lfs_cloud.Lfs.Oid.{LfsOid}
use lfs_cloud.Server.Repository.{RepositoryMapping, route_path}
use lfs_cloud.Server.Routing.{
  ServerConfig, LfsRouteEndpoint, info, batch, object, ResolvedLfsRoute, ConfiguredLfsRoute,
  configured_route, insert_route, sort_routes, routes_of, path_matches, strip_path_prefix,
  object_endpoint, parse_object_endpoint, parse_lfs_route_endpoint, resolved, or_next,
  resolve_among, resolve_path,
}
use lfs_cloud.Server.Routing.Matching.{
  Matches, Names, at_base, at_slash, at_batch, at_object, path_matches-Matches, with_slash,
  with_slash_none, strip_path_prefix-Matches,
}

module _ (debug : Text → Text) (display : LfsObjectError → Text) where
  object_endpoint-Names :
      (s : Text) (e : LfsRouteEndpoint)
      → any (λ c. c == b'/') s ≡ false
      → object_endpoint debug display (Oid.new s) ≡ ok e
      → Names (codes "/objects/" ++ s) e
  object_endpoint-Names s e l h = elim (Result-cases (Oid.new s)) [
    | inl (oid, f) ↦
        let same : object oid ≡ e = ground arith in
        subst (Names (codes "/objects/" ++ s)) same (at_object s oid l f)
    | inr (x, f) ↦ absurd (ground arith)
  ]

  parse-Names :
      (s : Text) (e : LfsRouteEndpoint)
      → parse_lfs_route_endpoint debug display s ≡ ok e
      → Names (codes "/" ++ s) e
  unfolding parse_lfs_route_endpoint parse_object_endpoint
  parse-Names s e h = elim (Bool-cases (text_eq s (codes "objects/batch"))) [
    | inl b ↦
        let same : batch ≡ e = ground arith in
        let spelled = (text_eq_iff s (codes "objects/batch")).0 b in
        subst (Names (codes "/" ++ s)) same
          (subst (λ t. Names (codes "/" ++ t) batch) (sym spelled) at_batch)
    | inr b ↦ elim (Option-cases (strip_prefix (codes "objects/") s)) [
      | inl o ↦ absurd (ground arith)
      | inr (t, o) ↦
          let spelled = strip_prefix-eq-some (codes "objects/") s t o in
          subst (λ t'. Names (codes "/" ++ t') e) (sym spelled)
            (object_endpoint-Names t e (ground arith) (ground arith))
    ]
  ]

-- A route of the table of the configuration.
abbrev pub IsConfigured : ServerConfig → ConfiguredLfsRoute → Type 0
IsConfigured config route =
    Memᴰ route.repository config.repositories × (route ≡ configured_route config route.repository)

module _ (config : ServerConfig) where
  insert_route-All :
      (route : ConfiguredLfsRoute) (routes : List ConfiguredLfsRoute)
      → IsConfigured config route
      → All (IsConfigured config) routes
      → All (IsConfigured config) (insert_route route routes)
  unfolding insert_route
  insert_route-All route [] h hs = (h, tt)
  insert_route-All route (other ∷ routes) h (k, ks) =
      elim (Bool-cases (leb (len other.route_path) (len route.route_path))) [
        | inl e ↦ rw e (h, (k, ks))
        | inr e ↦ rw e (k, insert_route-All route routes h ks)
      ]

  sort_routes-All :
      (routes : List ConfiguredLfsRoute)
      → All (IsConfigured config) routes
      → All (IsConfigured config) (sort_routes routes)
  unfolding sort_routes
  sort_routes-All [] h = tt
  sort_routes-All (route ∷ routes) (h, hs) =
      insert_route-All route (sort_routes routes) h (sort_routes-All routes hs)

  map-All :
      (rs : List RepositoryMapping)
      → ((r : RepositoryMapping) → Memᴰ r rs → Memᴰ r config.repositories)
      → All (IsConfigured config) (map (configured_route config) rs)
  unfolding configured_route
  map-All [] sub = tt
  map-All (r ∷ rs) sub = ((sub r (Memᴰ.head refl), refl), map-All rs (λ s m. sub s (Memᴰ.tail m)))

  pub routes_of-All : All (IsConfigured config) (routes_of config)
  unfolding routes_of
  routes_of-All = sort_routes-All _ (map-All config.repositories (λ r m. m))

  -- The repository is configured, and the path is its identity, the base path and a suffix that
  -- names the endpoint.
  abbrev pub IsServed : Text → ResolvedLfsRoute → Type 0
  IsServed path x =
      (rest : Text) × Memᴰ x.repository config.repositories
      × Matches config x.repository rest path
      × Names rest x.endpoint

  module _ (debug : Text → Text) (display : LfsObjectError → Text) where
    resolved-IsServed :
        (r : RepositoryMapping) (path s : Text) (x : ResolvedLfsRoute)
        → Memᴰ r config.repositories
        → Matches config r (codes "/" ++ s) path
        → resolved debug display r (parse_lfs_route_endpoint debug display s) ≡ ok x
        → IsServed path x
    resolved-IsServed r path s x m k h =
        elim (Result-cases (parse_lfs_route_endpoint debug display s)) [
          | inl (e, f) ↦
              let same : record { repository = r; endpoint = e } ≡ x = ground arith in
              subst (IsServed path) same (codes "/" ++ s, m, k, parse-Names debug display s e f)
          | inr (e, f) ↦ absurd (ground arith)
        ]

    route-IsServed :
        (r : RepositoryMapping) (path : Text) (next : Result ServerError ResolvedLfsRoute)
        (x : ResolvedLfsRoute)
        → Memᴰ r config.repositories
        → (next ≡ ok x → IsServed path x)
        → (if path_matches (configured_route config r) path (route_path r)
              || path_matches (configured_route config r) path (route_path r ++ codes "/")
            then ok (record { repository = r; endpoint = info })
            else or_next debug display
                (configured_route config r)
                (strip_path_prefix (configured_route config r) path)
                next)
          ≡ ok x
        → IsServed path x
    unfolding configured_route
    route-IsServed r path next x m further h =
        elim (Bool-cases (path_matches (configured_route config r) path (route_path r))) [
          | inl e ↦
              let same : record { repository = r; endpoint = info } ≡ x = ground arith in
              let k = path_matches-Matches config r path (route_path r) [] (with_slash_none r) e in
              subst (IsServed path) same ([], m, k, at_base)
          | inr e ↦
              elim (Bool-cases
                (path_matches (configured_route config r) path (route_path r ++ codes "/"))) [
                  | inl f ↦
                      let same : record { repository = r; endpoint = info } ≡ x = ground arith in
                      let k =
                        path_matches-Matches config r path (route_path r ++ codes "/") (codes "/")
                          (with_slash r (codes "/")) f in
                      subst (IsServed path) same (codes "/", m, k, at_slash)
                  | inr f ↦
                      elim (Option-cases (strip_path_prefix (configured_route config r) path)) [
                        | inl o ↦ further (ground arith)
                        | inr (s, o) ↦
                            resolved-IsServed r path s x m
                              (strip_path_prefix-Matches config r path s o) (ground arith)
                      ]
                ]
        ]

    among-IsServed :
        (routes : List ConfiguredLfsRoute) (path : Text) (x : ResolvedLfsRoute)
        → All (IsConfigured config) routes
        → resolve_among debug display routes path ≡ ok x
        → IsServed path x
    unfolding resolve_among configured_route
    among-IsServed [] path x all h = cc
    among-IsServed (route ∷ routes) path x ((m, e), all) h =
        route-IsServed route.repository path (resolve_among debug display routes path) x m
          (among-IsServed routes path x all)
          (subst (λ (t : ConfiguredLfsRoute). resolve_among debug display (t ∷ routes) path ≡ ok x)
            e h)

    -- A path resolves only to a configured repository whose identity it spells, by the rules of its
    -- provider, and to the endpoint that the rest of the path names.
    pub resolve_path-IsServed :
        (path : Text) (x : ResolvedLfsRoute)
        → resolve_path debug display (routes_of config) path ≡ ok x
        → IsServed path x
    unfolding resolve_path
    resolve_path-IsServed path x h =
        among-IsServed (routes_of config) path x routes_of-All (ground arith)
