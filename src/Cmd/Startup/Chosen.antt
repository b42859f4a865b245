-- ===== src/Cmd/Startup/Chosen.antt =====
-- The chain and the routes of the server that main starts.
use g_rpcat.Base.{
  ap, ◌∙◌, ◌≡◌, ◌≢◌, refl, sym, List, [], ◌∷◌, ◌++◌, Option, none, some, Outcome, ok, err, panic,
  ◌>>=◌, >>=-eq-ok, append-nil, arith, if◌then◌else◌,
}
use g_rpcat.Base.Texts.{Text, same, is_empty}
use g_rpcat.Base.Dict.{lookup}
use g_rpcat.Proxy.Config.{Grpc, Config}
use g_rpcat.Proxy.Server.{Server, new_server, use_middleware}
use g_rpcat.Cmd.Route.{parse_route, RouteMiddleware, new_route_middleware, add_route, route_handle}
use g_rpcat.Cmd.Route.Laws.{lookup-add_route}
use g_rpcat.Cmd.Logging.{logging_handle}
use g_rpcat.Cmd.Main.{Flags, Certificates, build_proxy_config}
use g_rpcat.Cmd.Main.Tls.{build_proxy_config-backend}
use g_rpcat.Cmd.Startup.{
  Exit, exit_by, bad_config, bad_server, bad_route, register_routes, start_up, use_logging,
  use_routes,
}

-- The backend of a service by a list of -route values, of which the last one counts; `o` if none is
-- for the service.
abbrev pub last_route : Text → List Text → Option Text → Option Text
last_route service [] o = o
last_route service (r ∷ rs) o = last_route service rs (elim (parse_route r) [
  | ok (s, backend) ↦ if same s service then some backend else o
  | err e ↦ o
  | panic ↦ o
])

-- Routes that register give each service the backend of its last -route value, or leave it as it
-- was if there is none for it.
pub register_routes_lem :
    (rs : List Text) (m router : RouteMiddleware) (service : Text)
    → register_routes rs m ≡ ok router
    → lookup service router.routes ≡ last_route service rs (lookup service m.routes)
unfolding register_routes
register_routes_lem [] m router service e = ground arith
register_routes_lem (r ∷ rs) m router service e =
    let ((s, b), parsed, rest) = >>=-eq-ok (parse_route r) _ e in
    rw (parsed, sym (lookup-add_route s service b m))
      (register_routes_lem rs (add_route s b m) router service rest)

default_lem :
    {g : Grpc} {MD : Type 0} (config : Config g) (s : Server g MD)
    → new_server (some config) ≡ ok s
    → (s.config ≡ config) × (s.middlewares ≡ []) × (config.default_backend ≢ [])
unfolding new_server
default_lem config s e = ground arith

joined {ℓ} :
    {A : Type ℓ} (xs ys zs ls rs : List A) → xs ≡ ys ++ rs → ys ≡ zs ++ ls → zs ≡ [] → xs ≡ ls ++ rs
joined xs ys zs ls rs e f g = rw (e, f, g) refl

pub exit_by-ok {ℓ κ} :
    {E : Type κ} {A : Type ℓ} (f : E → Exit) (r : Outcome E A) {a : A}
    → exit_by f r ≡ ok a
    → r ≡ ok a
exit_by-ok f (ok a) e = ground arith
exit_by-ok f (err x) e = cc
exit_by-ok f panic e = cc

module _ (g : Grpc) (MD : Type 0) (certs : Certificates g) where
  use_logging_lem :
      (f : Flags) (s t : Server g MD)
      → use_logging g MD certs f s ≡ ok t
      → (t.config ≡ s.config)
        × (t.middlewares ≡ s.middlewares ++ (if f.verbose then logging_handle ∷ [] else []))
  unfolding use_logging
  use_logging_lem f s t e = ground (arith, append-nil s.middlewares)

  use_routes_lem :
      (rs : List Text) (s t : Server g MD)
      → use_routes g MD certs rs s ≡ ok t
      → (t.config ≡ s.config)
        × ((router : RouteMiddleware) × (t.middlewares
              ≡ s.middlewares ++ (if is_empty rs then [] else route_handle router ∷ []))
            × ((service : Text) → lookup service router.routes ≡ last_route service rs none))
  unfolding use_routes use_middleware lookup
  use_routes_lem [] s t e = (
    ground arith,
    (new_route_middleware, ground (arith, append-nil s.middlewares), λ service. refl),
  )
  use_routes_lem (r ∷ rs) s t e =
      let (router, listed, done) = >>=-eq-ok _ _ e in
      let registered : register_routes (r ∷ rs) new_route_middleware ≡ ok router =
        exit_by-ok bad_route _ listed in
      (
        ground arith,
        (
          router,
          ground arith,
          λ service. register_routes_lem (r ∷ rs) new_route_middleware router service registered,
        ),
      )

  start_up-steps :
      (f : Flags) (s : Server g MD)
      → start_up g MD certs f ≡ ok s
      → (config : Config g) × (server : Server g MD) × (build_proxy_config g certs f ≡ ok config)
        × (new_server (some config) ≡ ok server)
        × ((use_logging g MD certs f server >>= λ logged. use_routes g MD certs f.routes logged)
            ≡ ok s)
  unfolding start_up
  start_up-steps f s e =
      let chain : (exit_by bad_config (build_proxy_config g certs f) >>= λ config.
      exit_by bad_server (new_server (some config)) >>= λ server.
      use_logging g MD certs f server >>= λ logged. use_routes g MD certs f.routes logged)
          ≡ ok s =
        ground arith in
      let (config, built, rest) = >>=-eq-ok _ _ chain in
      let (server, made, rest') = >>=-eq-ok _ _ rest in
      (config, server, exit_by-ok bad_config _ built, exit_by-ok bad_server _ made, rest')

  pub start_up-config :
      (f : Flags) (s : Server g MD)
      → start_up g MD certs f ≡ ok s
      → build_proxy_config g certs f ≡ ok s.config
  start_up-config f s e =
      let (config, server, built, made, rest) = start_up-steps f s e in
      let (logged, used, routed) = >>=-eq-ok _ _ rest in
      built
      ∙ ap ok (
          sym (
            (use_routes_lem f.routes logged s routed).0
            ∙ (use_logging_lem f server logged used).0
            ∙ (default_lem config server made).0))

  -- The server that main starts has the -backend flag as its default, which is not empty, and its
  -- chain is the logging middleware if -v is given, and then the routing middleware if there is a
  -- -route, which has for each service the backend of the last -route value for it.
  pub start_up_lem :
      (f : Flags) (s : Server g MD)
      → start_up g MD certs f ≡ ok s
      → (s.config.default_backend ≡ f.backend)
        × (f.backend ≢ [])
        × ((router : RouteMiddleware) × (s.middlewares
              ≡ (if f.verbose then logging_handle ∷ [] else [])
                ++ (if is_empty f.routes then [] else route_handle router ∷ []))
            × ((service : Text) → lookup service router.routes ≡ last_route service f.routes none))
  unfolding start_up
  start_up_lem f s e =
      let (config, server, built, made, rest') = start_up-steps f s e in
      let (logged, used, routed) = >>=-eq-ok _ _ rest' in
      let (same, empty, full) = default_lem config server made in
      let backend = build_proxy_config-backend g certs f config built in
      let (same', chain') = use_logging_lem f server logged used in
      let (same'', (router, chain'', routes)) = use_routes_lem f.routes logged s routed in
      (ground arith, ground arith, (router, joined _ _ _ _ _ chain'' chain' empty, routes))
