-- ===== src/Cmd/Startup/Tests.antt =====
-- Starts of the command from concrete flags.
use g_rpcat.Base.{ℕ, ◌≡◌, refl, true, false, [], ◌∷◌, none, some, ok, err, if◌then◌else◌}
use g_rpcat.Base.Int.{pos}
use g_rpcat.Base.Texts.{codes, same, cut, contains, trim_prefix, trim_space}
use g_rpcat.Base.Dict.{insert}
use g_rpcat.Middleware.Metadata.Pairs.{Pairs, pairs}
use g_rpcat.Proxy.Config.{Grpc, max_int32, resolve_msg_size}
use g_rpcat.Proxy.Cache.{new_connection_cache}
use g_rpcat.Proxy.Server.{
  Server, force_proxy_codec, unknown_service_handler, max_recv_size, max_send_size, Rpc, forwards,
  transparent_handler,
}
use g_rpcat.Cmd.Route.{RouteMiddleware, route_handle, parse_route}
use g_rpcat.Cmd.Logging.{logging_handle}
use g_rpcat.Cmd.Main.{Flags, Certificates}
use g_rpcat.Cmd.Startup.{start_up, backend_required}
use g_rpcat.Cmd.Startup.Chosen.{last_route}
use g_rpcat.Cmd.Startup.Routed.{lines, backend_of}
use g_rpcat.Cmd.Startup.Forwarding.{metadata_for, start_up-forwards}
use g_rpcat.Parser.Path.{parse_grpc_path}
use g_rpcat.Middleware.Context.{RequestInfo}
use g_rpcat.Middleware.Chain.{World, next_call, request_line, response_line}
use g_rpcat.Middleware.Pool.{acquire_context, use_pool}

abbrev plain : Grpc
plain = record { ServerOption = ℕ; DialOption = ℕ; Creds = ℕ; Keepalive = ℕ }

abbrev certs : Certificates plain
certs = record { server_creds = λ cert key. ok 1; client_creds = λ ca. ok 2; system_creds = 3 }

-- -backend d:1 -v -route a=x:1 -route a=y:1
abbrev flags : Flags
flags = record {
  listen = codes ":8080";
  backend = codes "d:1";
  routes = codes "a=x:1" ∷ codes "a=y:1" ∷ [];
  verbose = true;
  version = false;
  tls_cert = [];
  tls_key = [];
  backend_tls = false;
  backend_ca = [];
  max_recv_size = pos 0;
  max_send_size = pos 0;
  backend_idle_timeout = pos 0;
}

abbrev router : RouteMiddleware
router = record { routes = (codes "a", codes "y:1") ∷ [] }

-- The server that is started with them.
abbrev started : Server plain Pairs
started = record {
  config = record {
    default_backend = codes "d:1";
    keepalive_params = none;
    backend_transport_creds = none;
    backend_dial_options = [];
    server_options = [];
    max_recv_msg_size = pos 0;
    max_send_msg_size = pos 0;
    backend_idle_timeout = pos 0;
  };
  middlewares = logging_handle ∷ route_handle router ∷ [];
  arguments =
      force_proxy_codec
      ∷ unknown_service_handler
      ∷ max_recv_size max_int32
      ∷ max_send_size max_int32
      ∷ [];
  cache = record (new_connection_cache none none []) {
    config = record {
      keepalive = none;
      transport_creds = none;
      dial_opts = [];
      max_recv_msg_size = pos max_int32;
      max_send_msg_size = pos max_int32;
      idle_timeout = pos 0;
    };
  };
  stopped = false;
}

starting : Unit {0}
unfolding start_up same cut trim_space parse_route resolve_msg_size insert
starting = tt

start_up_tests :
    (start_up plain Pairs certs flags ≡ ok started)
    × (start_up plain Pairs certs (record flags { backend = [] }) ≡ err backend_required)
unfolding starting
start_up_tests = (refl, refl)

abbrev said : Rpc Pairs
said = record {
  full_method_name = some (codes "/a/Say");
  metadata = none;
  first_frame = ok (1 ∷ []);
}

parsed : parse_grpc_path (codes "/a/Say") ≡ ok (codes "a", codes "Say")
unfolding parse_grpc_path contains trim_prefix cut
parsed = refl

start_up-forwards_example :
    (transparent_handler started none (λ b. none) 0 (use_pool [] []) said
      ≡ ok (
          forwards
            (codes "/a/Say")
            (backend_of (last_route (codes "a") flags.routes none) flags.backend)
            (some (metadata_for none))
            (some (1 ∷ []))))
    × ((req : RequestInfo Pairs)
        → (w : World Pairs) × (next_call started.middlewares (record {
          state = (acquire_context 0 (some req) started.middlewares (use_pool [] [])).0.state;
          log = [];
        })
            ≡ ok w)
          × (lines w.log ≡ (
              if flags.verbose
              then request_line req.service req.method ∷ response_line req.service req.method ∷ []
              else [])))
start_up-forwards_example =
    start_up-forwards plain Pairs certs flags started none (λ b. none) [] 0 said (codes "/a/Say")
      (codes "a") (codes "Say") (some (1 ∷ [])) start_up_tests.0 refl parsed refl

routed_to : backend_of (last_route (codes "a") flags.routes none) flags.backend ≡ codes "y:1"
unfolding starting
routed_to = refl
