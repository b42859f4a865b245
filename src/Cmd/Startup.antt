-- ===== src/Cmd/Startup.antt =====
-- main of cmd/grpcat/main.go: from the flags to the server that is started.
pub mod Chosen
pub mod Routed
pub mod Forwarding
mod Tests
use g_rpcat.Base.{
  ℕ, List, [], ◌∷◌, ◌++◌, Option, none, some, Outcome, ok, err, panic, ◌>>=◌, if◌then◌else◌,
}
use g_rpcat.Base.Texts.{Text, is_empty}
use g_rpcat.Middleware.Chain.{Handler}
use g_rpcat.Proxy.Config.{Grpc, Config}
use g_rpcat.Proxy.Server.{Server, ServerError, new_server, use_middleware}
use g_rpcat.Cmd.Route.{
  RouteError, parse_route, RouteMiddleware, new_route_middleware, add_route, route_handle,
}
use g_rpcat.Cmd.Logging.{logging_handle}
use g_rpcat.Cmd.Main.{Flags, Certificates, ConfigError, build_proxy_config}

-- The reasons for which main exits before it serves.
pub data Exit : Type 0 where
  version_shown backend_required : Exit
  bad_config : ConfigError → Exit
  bad_server : ServerError → Exit
  bad_route : RouteError → Exit

abbrev pub exit_by {ℓ κ} : {E : Type κ} {A : Type ℓ} → (E → Exit) → Outcome E A → Outcome Exit A
exit_by f (ok a) = ok a
exit_by f (err e) = err (f e)
exit_by f panic = panic

-- The loop over -route.
unfoldable pub register_routes : List Text → RouteMiddleware → Outcome RouteError RouteMiddleware
unfolding add_route
register_routes [] router = ok router
register_routes (r ∷ rs) router =
    parse_route r >>= λ (service, backend). register_routes rs (add_route service backend router)

-- server.Use, with a middleware that is never nil
abbrev pub use_ok : {g : Grpc} {MD : Type 0} → Handler MD → Server g MD → Outcome Exit (Server g MD)
use_ok mw s = elim (use_middleware (some mw) s) [ none ↦ panic | some t ↦ ok t ]

module _ (g : Grpc) (MD : Type 0) (certs : Certificates g) where
  unfoldable pub use_logging : Flags → Server g MD → Outcome Exit (Server g MD)
  unfolding use_middleware
  use_logging f s = if f.verbose then use_ok logging_handle s else ok s

  -- The middlewares of -route, if there is any.
  unfoldable pub use_routes : List Text → Server g MD → Outcome Exit (Server g MD)
  unfolding use_middleware register_routes
  use_routes [] s = ok s
  use_routes (r ∷ rs) s =
      exit_by bad_route (register_routes (r ∷ rs) new_route_middleware) >>= λ router.
      use_ok (route_handle router) s

  -- The server that main starts, if it comes to that.
  unfoldable pub start_up : Flags → Outcome Exit (Server g MD)
  unfolding use_logging use_routes new_server build_proxy_config
  start_up f =
      if f.version
      then err version_shown
      else if is_empty f.backend
      then err backend_required
      else do
        config ← exit_by bad_config (build_proxy_config g certs f)
        server ← exit_by bad_server (new_server (some config))
        logged ← use_logging f server
        use_routes f.routes logged
