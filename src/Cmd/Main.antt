-- ===== src/Cmd/Main.antt =====
-- cmd/grpcat/main.go: the flags and the configuration that is built from them.
pub mod Tls
mod Tests
use g_rpcat.Base.{
  ℕ, Bool, true, false, not, ◌&&◌, List, [], ◌∷◌, ◌++◌, Option, none, some, Outcome, ok, err, panic,
  ◌>>=◌, if◌then◌else◌,
}
use g_rpcat.Base.Int.{ℤ}
use g_rpcat.Base.Texts.{Text, is_empty}
use g_rpcat.Middleware.Chain.{Handler}
use g_rpcat.Proxy.Config.{Grpc, Config}
use g_rpcat.Cmd.Route.{
  RouteError, parse_route, RouteMiddleware, new_route_middleware, add_route, route_handle,
}
use g_rpcat.Cmd.Logging.{logging_handle}

pub record Flags : Type 0 where
  pub listen : Text
  pub backend : Text
  pub routes : List Text
  pub verbose : Bool
  pub version : Bool
  pub tls_cert : Text
  pub tls_key : Text
  pub backend_tls : Bool
  pub backend_ca : Text
  pub max_recv_size : ℤ
  pub max_send_size : ℤ
  pub backend_idle_timeout : ℤ

-- routeFlags.Set, which appends.
unfoldable pub add_route_flag : Text → Flags → Flags
add_route_flag value f = record f { routes = f.routes ++ value ∷ [] }

-- What the grpc library makes of files; `err` has the number of the failure.
pub record Certificates (g : Grpc) : Type 0 where
  -- credentials.NewServerTLSFromFile(cert, key), wrapped by grpc.Creds
  pub server_creds : Text → Text → Outcome ℕ g.ServerOption
  -- credentials.NewClientTLSFromFile(ca, "")
  pub client_creds : Text → Outcome ℕ g.Creds
  -- credentials.NewTLS(&tls.Config{})
  pub system_creds : g.Creds

pub data ConfigError : Type 0 where
  cert_without_key ca_without_tls : ConfigError
  bad_certificate bad_ca : ℕ → ConfigError

-- fmt.Errorf("…: %w", err)
abbrev wrap {ℓ} : {A : Type ℓ} → (ℕ → ConfigError) → Outcome ℕ A → Outcome ConfigError A
wrap f (ok a) = ok a
wrap f (err e) = err (f e)
wrap f panic = panic

abbrev differ : Bool → Bool → Bool
differ true b = not b
differ false b = b

module _ (g : Grpc) (certs : Certificates g) where
  serving_options : Flags → Outcome ConfigError (List g.ServerOption)
  serving_options f =
      if differ (is_empty f.tls_cert) (is_empty f.tls_key)
      then err cert_without_key
      else if is_empty f.tls_cert
      then ok []
      else do
        creds ← wrap bad_certificate (certs.server_creds f.tls_cert f.tls_key)
        ok (creds ∷ [])

  backend_creds : Flags → Outcome ConfigError (Option g.Creds)
  backend_creds f =
      if not (is_empty f.backend_ca) && not f.backend_tls
      then err ca_without_tls
      else if not f.backend_tls
      then ok none
      else if is_empty f.backend_ca
      then ok (some certs.system_creds)
      else do creds ← wrap bad_ca (certs.client_creds f.backend_ca); ok (some creds)

  unfoldable pub build_proxy_config : Flags → Outcome ConfigError (Config g)
  unfolding serving_options backend_creds
  build_proxy_config f = do
    options ← serving_options f
    creds ← backend_creds f
    ok (record {
      default_backend = f.backend;
      keepalive_params = none;
      backend_transport_creds = creds;
      backend_dial_options = [];
      server_options = options;
      max_recv_msg_size = f.max_recv_size;
      max_send_msg_size = f.max_send_size;
      backend_idle_timeout = f.backend_idle_timeout;
    })
