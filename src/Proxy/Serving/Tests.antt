-- ===== src/Proxy/Serving/Tests.antt =====
-- One RPC from end to end, over counted buffers.
use g_rpcat.Base.{ℕ, ◌≡◌, refl, List, [], ◌∷◌, true, false, none, some, ok, err}
use g_rpcat.Base.Int.{pos}
use g_rpcat.Base.Texts.{codes, same, cut, contains, trim_prefix}
use g_rpcat.Parser.Path.{parse_grpc_path}
use g_rpcat.Middleware.Metadata.Pairs.{Pairs, pairs}
use g_rpcat.Middleware.Context.{abort_with_error, is_aborted, abort_index, normalize_request}
use g_rpcat.Middleware.Chain.{
  Handler, return, next, call, sets_backend, aborts_with_error, next_call, apply,
}
use g_rpcat.Middleware.Pool.{acquire_context}
use g_rpcat.Base.Dict.{lookup}
use g_rpcat.Proxy.Cache.Entries.{update}
use g_rpcat.Proxy.Config.{Grpc}
use g_rpcat.Proxy.Cache.{
  Cache, new_connection_cache, acquire, release, get_entry, fast_path, slow_path, pin_found, pin,
  unpin, stamp,
}
use g_rpcat.Proxy.Mem.Counted.{counted, Buffer}
use g_rpcat.Proxy.Codec.{ProtoCodec}
use g_rpcat.Proxy.Forwarder.{start_forward}
use g_rpcat.Proxy.Forwarder.Errors.{status}
use g_rpcat.Proxy.Server.{Server, Rpc, handle_aborted, transparent_handler}
use g_rpcat.Proxy.Serving.{Environment, serve_rpc, serve_reply, forward, forward_with}

abbrev plain : Grpc
plain = record { ServerOption = ℕ; DialOption = ℕ; Creds = ℕ; Keepalive = ℕ }

abbrev picks : Handler Pairs
picks = call (sets_backend (codes "b:1")) (next return)

abbrev refuses : Handler Pairs
refuses = call (aborts_with_error 7 (codes "no")) return

abbrev nothing_cached : Cache plain
nothing_cached = new_connection_cache none none []

abbrev server_of : List (Handler Pairs) → Server plain Pairs
server_of hs = record {
  config = record {
    default_backend = codes "d:1";
    keepalive_params = none;
    backend_transport_creds = none;
    backend_dial_options = [];
    server_options = [];
    max_recv_msg_size = pos 0;
    max_send_msg_size = pos 0;
    backend_idle_timeout = pos 0;
  };
  middlewares = hs;
  arguments = [];
  cache = nothing_cached;
  stopped = false;
}

-- Every call of grpc succeeds, and the streams end well.
abbrev works : Environment plain Pairs
works = record {
  hook = none;
  pick = 0;
  pool = [];
  now = 1;
  later = 2;
  end = 9;
  dial = λ b os. none;
  new_stream = λ t meta. none;
  send_frame = λ f. none;
  marshalled = true;
  send_response = λ b. none;
  outcome = none;
}

abbrev hello : Rpc Pairs
hello = record {
  full_method_name = some (codes "/a.B/C");
  metadata = some [];
  first_frame = ok (1 ∷ []);
}

abbrev buffer : Buffer
buffer = (some 1, 1 ∷ [])

abbrev proto : ProtoCodec counted ℕ
proto = record { encode = λ v. ok ((none, v ∷ []) ∷ []); decode = λ bs v. err 1 }

-- Nobody holds a buffer.
abbrev nobody : Buffer → ℕ
nobody = λ b. 0

serving : Unit {0}
unfolding serve_rpc serve_reply forward forward_with transparent_handler next_call apply is_aborted
    abort_index same parse_grpc_path handle_aborted acquire_context abort_with_error cut contains
    trim_prefix normalize_request acquire release get_entry fast_path slow_path pin_found pin unpin
    stamp start_forward new_connection_cache
serving = tt

serve_rpc_tests :
    let served =
      serve_rpc {m = counted}
        (server_of (picks ∷ []))
        works
        hello
        (some (buffer ∷ []))
        nothing_cached in
    let refused =
      serve_rpc {m = counted}
        (server_of (refuses ∷ []))
        works
        hello
        (some (buffer ∷ []))
        nothing_cached in
    (served.result ≡ ok none)
    × ((served.cache.heap 0).in_flight ≡ pos 0)
    × ((served.cache.heap 0).last_used ≡ 9)
    × (refused.result ≡ ok (some (status 7 (codes "no"))))
unfolding serving lookup update
serve_rpc_tests = (refl, refl, refl, refl)
