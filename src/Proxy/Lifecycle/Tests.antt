-- ===== src/Proxy/Lifecycle/Tests.antt =====
-- A server that serves an RPC, gets both signals and comes down.
use g_rpcat.Base.{ℕ, refl, true, false, [], none, arith, ◌⊎◌, inl, inr, ◌∷◌, ◌<◌}
use g_rpcat.Base.Int.{pos}
use g_rpcat.Middleware.Metadata.Pairs.{Pairs}
use g_rpcat.Proxy.Config.{Grpc}
use g_rpcat.Proxy.Cache.{new_connection_cache}
use g_rpcat.Proxy.Server.{Server}
use g_rpcat.Proxy.Lifecycle.{
  Step, Life, new_life, begin_stop, close_forwarder, listens, watcher_stops, rpc_starts,
  first_signal, second_signal, Reach, here, next, closing, in_stop, serving, one_signal,
  two_signals, watching, draining, graceful_stop_starts,
}
use g_rpcat.Proxy.Lifecycle.Shutdown.{work_left, GoesOn, IsDown, IsOwn, IsComingDown}
use g_rpcat.Proxy.Lifecycle.Completion.{OwnRun, shutdown_completes}

abbrev plain : Grpc
plain = record { ServerOption = ℕ; DialOption = ℕ; Creds = ℕ; Keepalive = ℕ }

abbrev server : Server plain Pairs
server = record {
  config = record {
    default_backend = 1 ∷ [];
    keepalive_params = none;
    backend_transport_creds = none;
    backend_dial_options = [];
    server_options = [];
    max_recv_msg_size = pos 0;
    max_send_msg_size = pos 0;
    backend_idle_timeout = pos 0;
  };
  middlewares = [];
  arguments = [];
  cache = new_connection_cache none none [];
  stopped = false;
}

-- An RPC is running when the first signal comes.
abbrev busy : Life plain Pairs
busy = record (new_life server) {
  serve = serving;
  watcher = watching;
  rpcs = 1;
  signals = one_signal;
  context_done = true;
}

abbrev told : Life plain Pairs
told = begin_stop (record busy { watcher = in_stop })

abbrev stopping : Life plain Pairs
stopping = record told { stop_phase = draining }

abbrev pressed : Life plain Pairs
pressed = record stopping { signals = two_signals; forced = true }

abbrev idle_again : Life plain Pairs
idle_again = record pressed { rpcs = 0 }

abbrev drained : Life plain Pairs
drained = record idle_again { stop_phase = closing }

abbrev closed : Life plain Pairs
closed = close_forwarder drained

pressed-Reach : Reach (new_life server) pressed
unfolding new_life begin_stop
pressed-Reach =
    next
      (next
        (next
          (next
            (next (next here (listens (new_life server) refl)) (
              rpc_starts (record (new_life server) { serve = serving; watcher = watching }) refl
                (inl refl) refl))
            (first_signal
              (record (new_life server) { serve = serving; watcher = watching; rpcs = 1 }) refl))
          (watcher_stops busy refl refl))
        (graceful_stop_starts told refl))
      (second_signal stopping refl)

pressed-IsComingDown : IsComingDown pressed
unfolding new_life begin_stop
pressed-IsComingDown = record {
  started = ground arith;
  begun = inr (ground arith);
  over = inl refl;
}

shutdown_completes_example :
    (GoesOn pressed ⊎ IsDown pressed)
    × ((k : Life plain Pairs) (st : Step pressed k) → IsOwn st → work_left k < work_left pressed)
    × ((k : Life plain Pairs) × OwnRun pressed k × IsDown k)
shutdown_completes_example =
    shutdown_completes server pressed refl pressed-Reach pressed-IsComingDown
