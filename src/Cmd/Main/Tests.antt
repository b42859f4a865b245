-- ===== src/Cmd/Main/Tests.antt =====
-- The flags and routes at concrete values.
use g_rpcat.Base.{ℕ, ◌≡◌, refl, ◌↔◌, true, false, [], ◌∷◌, none, some, ok, err}
use g_rpcat.Base.Int.{pos}
use g_rpcat.Base.Texts.{Text, codes, cut, trim_space}
use g_rpcat.Middleware.Metadata.Pairs.{Pairs, pairs}
use g_rpcat.Middleware.Context.{RequestInfo}
use g_rpcat.Middleware.Chain.{World}
use g_rpcat.Proxy.Config.{Grpc, Config}
use g_rpcat.Cmd.Route.{parse_route, invalid_route, RouteMiddleware}
use g_rpcat.Cmd.Route.Laws.{IsRoute, parse_route_iff}
use g_rpcat.Cmd.Main.{Flags, Certificates, build_proxy_config, cert_without_key, add_route_flag}
use g_rpcat.Cmd.Main.Tls.{Serves, Dials, build_proxy_config-secure}

abbrev users : Text
users = codes "user.Service"

abbrev at_52 : Text
at_52 = codes "localhost:50052"

route_tests :
    (parse_route (codes "user.Service = localhost:50052 ") ≡ ok (users, at_52))
    × (parse_route (codes "a=b=c") ≡ ok (codes "a", codes "b=c"))
    × (parse_route (codes "a") ≡ err (invalid_route (codes "a")))
    × (parse_route (codes "a= ") ≡ err (invalid_route (codes "a= ")))
    × (parse_route (codes "=b") ≡ err (invalid_route (codes "=b")))
unfolding parse_route cut trim_space
route_tests = (refl, refl, refl, refl, refl)

parse_route_iff_example :
    (parse_route (codes "a=b=c") ≡ ok (codes "a", codes "b=c"))
    ↔ IsRoute (codes "a=b=c") (codes "a") (codes "b=c")
parse_route_iff_example = parse_route_iff (codes "a=b=c") (codes "a") (codes "b=c")

abbrev router : RouteMiddleware
router = record { routes = (users, at_52) ∷ [] }

abbrev asked : RequestInfo Pairs
asked = record { service = users; method = codes "Get"; metadata = some []; first_payload = none }

abbrev world : World Pairs
world = record {
  state = record {
    request = some asked;
    response = none;
    backend = [];
    values = none;
    index = pos 0;
  };
  log = [];
}

abbrev plain : Grpc
plain = record { ServerOption = ℕ; DialOption = ℕ; Creds = ℕ; Keepalive = ℕ }

abbrev files : Certificates plain
files = record { server_creds = λ c k. ok 1; client_creds = λ c. ok 2; system_creds = 3 }

abbrev flags : Flags
flags = record {
  listen = codes ":8080";
  backend = codes "localhost:50051";
  routes = [];
  verbose = false;
  version = false;
  tls_cert = codes "server.pem";
  tls_key = codes "server-key.pem";
  backend_tls = true;
  backend_ca = [];
  max_recv_size = pos 0;
  max_send_size = pos 0;
  backend_idle_timeout = pos 0;
}

abbrev built : Config plain
built = record {
  default_backend = codes "localhost:50051";
  keepalive_params = none;
  backend_transport_creds = some 3;
  backend_dial_options = [];
  server_options = 1 ∷ [];
  max_recv_msg_size = pos 0;
  max_send_msg_size = pos 0;
  backend_idle_timeout = pos 0;
}

config_tests :
    (build_proxy_config plain files flags ≡ ok built)
    × (build_proxy_config plain files (record flags { tls_key = [] }) ≡ err cert_without_key)
    × ((add_route_flag (codes "a=b") flags).routes ≡ codes "a=b" ∷ [])
unfolding build_proxy_config add_route_flag
config_tests = (refl, refl, refl)

build_proxy_config-secure_example :
    Serves plain files flags (1 ∷ []) × Dials plain files flags (some 3)
build_proxy_config-secure_example = build_proxy_config-secure plain files flags built config_tests.0
