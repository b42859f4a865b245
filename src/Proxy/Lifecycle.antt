-- ===== src/Proxy/Lifecycle.antt =====
-- Server.Start and Server.Stop of proxy/server.go and the signals that main of cmd/grpcat/main.go
-- waits for, as steps in any order: Serve, the goroutine that watches the context, the callers of
-- Stop, the RPCs and the goroutine of the signals.
pub mod Ordering
pub mod Shutdown
pub mod Completion
mod Tests
use g_rpcat.Base.{ℕ, suc, ◌≡◌, ◌≢◌, ◌⊎◌, Bool, true, false, none, if◌then◌else◌}
use g_rpcat.Proxy.Config.{Grpc}
use g_rpcat.Proxy.Cache.{Cache, close, sweep_idle}
use g_rpcat.Proxy.Server.{Server}

-- Stop: nobody has called it, s.stopped is closed, GracefulStop waits for the RPCs, GracefulStop has
-- returned, or the forwarder is closed. Any call but the first waits for the last of these.
pub data StopPhase : Type 0 where
  idle announced draining closing complete : StopPhase

-- The goroutine of Start: not started, at its select, in Stop, or ended.
pub data Watcher : Type 0 where
  absent watching in_stop gone : Watcher

-- Start: not called, in Serve, returned, or returned with an error.
pub data Serving : Type 0 where
  unstarted serving returned failed : Serving

-- The signals that have come.
pub data Signals : Type 0 where
  no_signal one_signal two_signals : Signals

-- `rpcs` counts the handlers that run; `forced` is whether grpcServer.Stop was called, which closes
-- all connections and cancels the RPCs.
pub record Life (g : Grpc) (MD : Type 0) : Type 0 where
  pub server : Server g MD
  pub stop_phase : StopPhase
  pub watcher : Watcher
  pub serve : Serving
  pub rpcs : ℕ
  pub context_done : Bool
  pub signals : Signals
  pub forced : Bool

module _ {g : Grpc} {MD : Type 0} where
  unfoldable pub new_life : Server g MD → Life g MD
  new_life s = record {
    server = s;
    stop_phase = idle;
    watcher = absent;
    serve = unstarted;
    rpcs = 0;
    context_done = false;
    signals = no_signal;
    forced = false;
  }

  -- The first call of Stop closes s.stopped; another one waits for it.
  unfoldable pub begin_stop : Life g MD → Life g MD
  begin_stop l = elim l.stop_phase [
    | idle ↦ record l { stop_phase = announced; server = record l.server { stopped = true } }
    | announced ↦ l
    | draining ↦ l
    | closing ↦ l
    | complete ↦ l
  ]

  unfoldable pub close_forwarder : Life g MD → Life g MD
  unfolding close
  close_forwarder l = record l {
    stop_phase = complete;
    server = record l.server { cache = close l.server.cache };
  }

  pub data Step : Life g MD → Life g MD → Type 0 where
    -- Start, by what net.Listen gives
    listens :
        (l : Life g MD)
        → l.serve ≡ unstarted
        → Step l (record l { serve = serving; watcher = watching })
    listen_fails : (l : Life g MD) → l.serve ≡ unstarted → Step l (record l { serve = failed })
    -- the two cases of the goroutine's select, and its return from Stop
    watcher_stops :
        (l : Life g MD)
        → l.watcher ≡ watching
        → l.context_done ≡ true
        → Step l (begin_stop (record l { watcher = in_stop }))
    watcher_leaves :
        (l : Life g MD)
        → l.watcher ≡ watching
        → l.server.stopped ≡ true
        → Step l (record l { watcher = gone })
    watcher_returns :
        (l : Life g MD)
        → l.watcher ≡ in_stop
        → l.stop_phase ≡ complete
        → Step l (record l { watcher = gone })
    -- any other caller of Stop
    stop_is_called : (l : Life g MD) → Step l (begin_stop l)
    -- GracefulStop lets no new RPC in, and blocks until all are finished.
    graceful_stop_starts :
        (l : Life g MD) → l.stop_phase ≡ announced → Step l (record l { stop_phase = draining })
    graceful_stop_returns :
        (l : Life g MD)
        → l.stop_phase ≡ draining
        → l.rpcs ≡ 0
        → Step l (record l { stop_phase = closing })
    forwarder_closes : (l : Life g MD) → l.stop_phase ≡ closing → Step l (close_forwarder l)
    -- Serve returns after GracefulStop or Stop, and may fail before.
    serve_returns :
        (l : Life g MD)
        → l.serve ≡ serving
        → ((l.stop_phase ≢ idle) × (l.stop_phase ≢ announced)) ⊎ (l.forced ≡ true)
        → Step l (record l { serve = returned })
    serve_fails : (l : Life g MD) → l.serve ≡ serving → Step l (record l { serve = failed })
    rpc_starts :
        (l : Life g MD)
        → l.serve ≡ serving
        → (l.stop_phase ≡ idle) ⊎ (l.stop_phase ≡ announced)
        → l.forced ≡ false
        → Step l (record l { rpcs = suc l.rpcs })
    -- An RPC does something with the cache.
    rpc_uses_cache :
        (l : Life g MD) (n : ℕ) (c : Cache g)
        → l.rpcs ≡ suc n
        → Step l (record l { server = record l.server { cache = c } })
    -- The sweeper, which a tick may wake when its channel is closed already.
    sweeper_sweeps :
        (l : Life g MD) (now : ℕ) (is_idle : ℕ → Bool)
        → l.server.cache.sweeper ≢ none
        → Step l (record l {
          server = record l.server { cache = sweep_idle now is_idle l.server.cache };
        })
    rpc_ends : (l : Life g MD) (n : ℕ) → l.rpcs ≡ suc n → Step l (record l { rpcs = n })
    -- The context that Start was given is cancelled; the first signal does that too.
    context_ends : (l : Life g MD) → Step l (record l { context_done = true })
    first_signal :
        (l : Life g MD)
        → l.signals ≡ no_signal
        → Step l (record l { signals = one_signal; context_done = true })
    second_signal :
        (l : Life g MD)
        → l.signals ≡ one_signal
        → Step l (record l { signals = two_signals; forced = true })

  pub data Reach (l : Life g MD) : Life g MD → Type 0 where
    here : Reach l l
    next : {k n : Life g MD} → Reach l k → Step k n → Reach l n
