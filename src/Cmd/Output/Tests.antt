-- ===== src/Cmd/Output/Tests.antt =====
-- What the command prints for concrete flags.
use g_rpcat.Base.{ℕ, ◌≡◌, ◌↔◌, refl, true, false, [], ◌∷◌, none, some, ok, err}
use g_rpcat.Base.Int.{pos}
use g_rpcat.Base.Texts.{codes, same, cut, trim_space}
use g_rpcat.Base.Dict.{insert}
use g_rpcat.Middleware.Metadata.Pairs.{Pairs}
use g_rpcat.Proxy.Config.{Grpc, resolve_msg_size}
use g_rpcat.Proxy.Server.{Server}
use g_rpcat.Cmd.Route.{parse_route}
use g_rpcat.Cmd.Main.{Flags, Certificates}
use g_rpcat.Cmd.Startup.{start_up, backend_required, version_shown}
use g_rpcat.Cmd.Output.{
  banner, version_line, route_registered, starting_proxy, listening_on, backend_is,
  serving_tls_enabled, verbose_enabled, blank_line, main_aloud,
}
use g_rpcat.Cmd.Output.Starting.{main_aloud_starts, PrintsStart}
use g_rpcat.Cmd.Output.Truthful.{Truthful, main_aloud-Truthful}

abbrev plain : Grpc
plain = record { ServerOption = ℕ; DialOption = ℕ; Creds = ℕ; Keepalive = ℕ }

abbrev certs : Certificates plain
certs = record { server_creds = λ cert key. ok 1; client_creds = λ ca. ok 2; system_creds = 3 }

-- -listen :8080 -backend d:1 -v -route a=x:1 -tls-cert c -tls-key k
abbrev flags : Flags
flags = record {
  listen = codes ":8080";
  backend = codes "d:1";
  routes = codes "a=x:1" ∷ [];
  verbose = true;
  version = false;
  tls_cert = codes "c";
  tls_key = codes "k";
  backend_tls = false;
  backend_ca = [];
  max_recv_size = pos 0;
  max_send_size = pos 0;
  backend_idle_timeout = pos 0;
}

starting : Unit {0}
unfolding start_up main_aloud same cut trim_space parse_route resolve_msg_size insert
starting = tt

started : (s : Server plain Pairs) × (start_up plain Pairs certs flags ≡ ok s)
unfolding starting
started = (_, refl)

main_aloud_tests :
    ((main_aloud plain Pairs certs none flags).0
      ≡ banner
        ∷ route_registered (codes "a") (codes "x:1")
        ∷ starting_proxy
        ∷ listening_on (codes ":8080")
        ∷ backend_is (codes "d:1")
        ∷ serving_tls_enabled
        ∷ verbose_enabled
        ∷ blank_line
        ∷ [])
    × (main_aloud plain Pairs certs (some (codes "v1")) (record flags { version = true })
        ≡ (version_line (codes "gRPCat v1") ∷ [], err version_shown))
    × (main_aloud plain Pairs certs none (record flags { backend = [] })
        ≡ (banner ∷ [], err backend_required))
unfolding starting
main_aloud_tests = (refl, refl, refl)

main_aloud-Truthful_example :
    Truthful plain Pairs certs flags started.0 (main_aloud plain Pairs certs none flags).0
main_aloud-Truthful_example = main_aloud-Truthful plain Pairs certs none flags started.0 started.1

main_aloud_starts_example :
    PrintsStart (main_aloud plain Pairs certs none (record flags { backend = [] })).0 ↔ (
      (s : Server plain Pairs) × (start_up plain Pairs certs (record flags { backend = [] })
        ≡ ok s))
main_aloud_starts_example = main_aloud_starts plain Pairs certs none (record flags { backend = [] })
