-- ===== src/Proxy/Server/Tests.antt =====
-- Runs of the server, and its laws at concrete RPCs.
use g_rpcat.Base.{ℕ, ◌≡◌, ◌≢◌, refl, false, List, [], ◌∷◌, none, some, Outcome, ok, err, arith}
use g_rpcat.Base.Int.{pos, negsuc}
use g_rpcat.Base.Texts.{codes, same, cut, contains, trim_prefix}
use g_rpcat.Parser.Path.{parse_grpc_path}
use g_rpcat.Middleware.Metadata.Pairs.{Pairs, pairs}
use g_rpcat.Middleware.Context.{State, abort_with_error, is_aborted, abort_index, normalize_request}
use g_rpcat.Middleware.Chain.{
  Handler, return, next, call, sets_backend, aborts_with_error, Fault, out_of_fuel, next_call,
  apply,
}
use g_rpcat.Middleware.Pool.{
  Context, acquire_context, new_context, Use, releases, acquires, use_pool,
}
use g_rpcat.Proxy.Config.{Grpc, Config, max_int32, resolve_msg_size}
use g_rpcat.Proxy.Cache.{new_connection_cache}
use g_rpcat.Proxy.Forwarder.Errors.{eof, status}
use g_rpcat.Proxy.Server.{
  Server, force_proxy_codec, unknown_service_handler, max_recv_size, max_send_size, given,
  new_server, use_middleware, handle_aborted, Rpc, Reply, ends, forwards, transparent_handler,
}
use g_rpcat.Proxy.Server.Handling.{IsMade, made, used, Forwarded, transparent_handler-Forwarded}
use g_rpcat.Proxy.Server.Snapshots.{no_middlewares, use_each, contents, snapshot, snapshot_stays}
use g_rpcat.Proxy.Server.Pooled.{transparent_handler_any_pool}
use g_rpcat.Proxy.Server.Answers.{transparent_handler_safe}

abbrev plain : Grpc
plain = record { ServerOption = ℕ; DialOption = ℕ; Creds = ℕ; Keepalive = ℕ }

abbrev config : Config plain
config = record {
  default_backend = codes "d:1";
  keepalive_params = none;
  backend_transport_creds = none;
  backend_dial_options = [];
  server_options = 4 ∷ [];
  max_recv_msg_size = pos 0;
  max_send_msg_size = pos 0;
  backend_idle_timeout = pos 0;
}

-- A middleware that picks a backend, one that goes on, and one that refuses.
abbrev picks : Handler Pairs
picks = call (sets_backend (codes "b:1")) (next return)

abbrev refuses : Handler Pairs
refuses = call (aborts_with_error 7 (codes "no")) return

-- The server that NewServer makes of it, with a chain.
abbrev server_of : List (Handler Pairs) → Server plain Pairs
server_of hs = record {
  config = config;
  middlewares = hs;
  arguments =
      force_proxy_codec
      ∷ unknown_service_handler
      ∷ max_recv_size max_int32
      ∷ max_send_size max_int32
      ∷ given 4
      ∷ [];
  cache = record (new_connection_cache none none []) {
    config = record {
      keepalive = none;
      transport_creds = none;
      dial_opts = [];
      max_recv_msg_size = pos max_int32;
      max_send_msg_size = pos max_int32;
      idle_timeout = pos 0;
    };
  };
  stopped = false;
}

abbrev hello : Rpc Pairs
hello = record {
  full_method_name = some (codes "/a.B/C");
  metadata = some [];
  first_frame = ok (1 ∷ []);
}

serving : Unit {0}
unfolding new_server use_middleware transparent_handler next_call apply is_aborted abort_index same
    parse_grpc_path handle_aborted acquire_context abort_with_error cut contains trim_prefix
    normalize_request resolve_msg_size
serving = tt

answer : List (Handler Pairs) → Rpc Pairs → Outcome Fault (Reply Pairs)
answer hs rpc = transparent_handler (server_of hs) none (λ b. none) 0 [] rpc

server_tests :
    (answer (picks ∷ []) hello
      ≡ ok (forwards (codes "/a.B/C") (codes "b:1") (some []) (some (1 ∷ []))))
    × (answer [] (record hello { first_frame = err eof })
        ≡ ok (forwards (codes "/a.B/C") (codes "d:1") (some []) none))
    × (answer (refuses ∷ picks ∷ []) hello ≡ ok (ends (some (status 7 (codes "no")))))
    × (answer [] (record hello { first_frame = err (status 8 []) })
        ≡ ok (ends (some (status 8 []))))
unfolding serving answer
server_tests = (refl, refl, refl, refl)

picking : IsMade (server_of (picks ∷ []))
unfolding serving
picking =
    used (some picks) (server_of []) (server_of (picks ∷ []))
      (made (some config) (server_of []) refl) refl

transparent_handler-Forwarded_example :
    Forwarded
      (server_of (picks ∷ []))
      []
      0
      hello
      (codes "/a.B/C")
      (codes "b:1")
      (some [])
      (some (1 ∷ []))
unfolding serving
transparent_handler-Forwarded_example =
    transparent_handler-Forwarded (server_of (picks ∷ [])) none (λ b. none) 0 [] hello
      (codes "/a.B/C") (codes "b:1") (some []) (some (1 ∷ [])) picking (omega arith) refl

transparent_handler_safe_example :
    transparent_handler (server_of (refuses ∷ [])) none (λ b. none) 0 [] hello ≢ err out_of_fuel
unfolding abort_index
transparent_handler_safe_example =
    transparent_handler_safe (server_of (refuses ∷ [])) none (λ b. none) 0 [] hello out_of_fuel
      (omega arith)

-- A context on which nothing has happened.
abbrev idle : State Pairs
idle = record { request = none; response = none; backend = []; values = none; index = negsuc 0 }

-- One middleware is there when the snapshot is taken, and two more come.
abbrev early : List (ℕ × Handler Pairs)
early = (1, picks) ∷ []

abbrev late : List (ℕ × Handler Pairs)
late = (0, refuses) ∷ (0, picks) ∷ []

snapshot_stays_example :
    let r = use_each early no_middlewares in
    let later = use_each late r in
    (contents r (snapshot r) ≡ some picks ∷ [])
    × (contents later (snapshot r) ≡ some picks ∷ [])
    × (contents later (snapshot later) ≡ some picks ∷ some refuses ∷ some picks ∷ [])
snapshot_stays_example = snapshot_stays early late

-- Two requests before it, of which one has chosen another backend.
abbrev before : List (Use Pairs)
before =
    let c : Context Pairs = new_context none (picks ∷ []) in
    releases (record c { state = record c.state { backend = codes "x:1" } })
    ∷ acquires 0 none (refuses ∷ [])
    ∷ releases (record c { state = idle })
    ∷ releases (record c { state = record c.state { backend = codes "y:1" } })
    ∷ []

transparent_handler_any_pool_example :
    transparent_handler (server_of []) none (λ b. none) 1 (use_pool before []) hello
    ≡ transparent_handler (server_of []) none (λ b. none) 0 [] hello
transparent_handler_any_pool_example =
    transparent_handler_any_pool (server_of []) none (λ b. none) before 1 hello
