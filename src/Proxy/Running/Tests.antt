-- ===== src/Proxy/Running/Tests.antt =====
-- A server that serves one RPC and is stopped.
use g_rpcat.Base.Counts.{count}
use g_rpcat.Base.{ℕ, ◌<◌, ◌≡◌, refl, false, [], none, ok, arith, inl, some}
use g_rpcat.Base.Int.{pos}
use g_rpcat.Base.Texts.{codes, same}
use g_rpcat.Base.Dict.{lookup, insert}
use g_rpcat.Middleware.Metadata.Pairs.{Pairs}
use g_rpcat.Proxy.Config.{Grpc, Config, resolve_msg_size}
use g_rpcat.Proxy.Cache.{Dialer, new_connection_cache, close, slow_path, pin, stamp, unpin}
use g_rpcat.Proxy.Cache.Entries.{update}
use g_rpcat.Proxy.Cache.Pinning.{finds_or_dials, pins, stamps, unpins, drop_one}
use g_rpcat.Proxy.Server.{Server, new_server}
use g_rpcat.Proxy.Lifecycle.{
  new_life, begin_stop, close_forwarder, listens, rpc_starts, rpc_ends, stop_is_called,
  graceful_stop_starts, graceful_stop_returns, forwarder_closes,
}
use g_rpcat.Proxy.Running.{Running, cache_of, new_running, goes_on, uses_cache, Reach, here, next}
use g_rpcat.Proxy.Running.Stopped.{stop_leaves_nothing}

abbrev plain : Grpc
plain = record { ServerOption = ℕ; DialOption = ℕ; Creds = ℕ; Keepalive = ℕ }

abbrev dials : Dialer plain
dials backend opts = none

abbrev config : Config plain
config = record {
  default_backend = codes "d:1";
  keepalive_params = none;
  backend_transport_creds = none;
  backend_dial_options = [];
  server_options = [];
  max_recv_msg_size = pos 0;
  max_send_msg_size = pos 0;
  backend_idle_timeout = pos 0;
}

made : (s : Server plain Pairs) × (new_server (some config) ≡ ok s)
unfolding new_server new_connection_cache resolve_msg_size
made = (_, refl)

running : Unit {0}
unfolding made new_life begin_stop close_forwarder close slow_path pin stamp unpin count drop_one
    lookup insert same update
running = tt

-- An RPC dials a backend and opens a stream; Stop is called, the RPC ends, and Stop completes.
stopped : (r : Running plain Pairs) × Reach dials (new_running made.0) r
unfolding running
stopped = (
  _,
  next
      (next
        (next
          (next
            (next
              (next
                (next
                  (next
                    (next
                      (next (next here (goes_on (listens _ refl) tt))
                        (goes_on (rpc_starts _ refl (inl refl) refl) tt))
                      (uses_cache (finds_or_dials _ 5 0 (codes "b:1") _ refl refl) (omega arith)))
                    (uses_cache (pins _ 0 (omega arith)) (omega arith)))
                  (goes_on (stop_is_called _) tt))
                (uses_cache (stamps _ 9 0 (omega arith)) (omega arith)))
              (uses_cache (unpins _ 0 (omega arith)) (omega arith)))
            (goes_on (rpc_ends _ 0 refl) (omega arith)))
          (goes_on (graceful_stop_starts _ refl) tt))
        (goes_on (graceful_stop_returns _ refl refl) tt))
      (goes_on (forwarder_closes _ refl) tt),
)

stop_leaves_nothing_example :
    ((i : ℕ)
      → i < (cache_of stopped.0.life).next
      → (((cache_of stopped.0.life).heap i).open_conn ≡ false)
        × (((cache_of stopped.0.life).heap i).in_flight ≡ pos 0))
    × ((cache_of stopped.0.life).conns ≡ [])
    × (stopped.0.life.rpcs ≡ 0)
unfolding stopped
stop_leaves_nothing_example =
    stop_leaves_nothing dials (some config) made.0 stopped.0 stopped.0 made.1 stopped.1 refl here

made_one : (cache_of stopped.0.life).next ≡ 1
unfolding stopped
made_one = refl
