-- ===== src/Proxy/Lifecycle/Ordering.antt =====
-- The forwarder is closed behind the last RPC.
use g_rpcat.Base.{◌≡◌, ◌≢◌, ◌⊎◌, inr, true, false, [], arith}
use g_rpcat.Proxy.Config.{Grpc}
use g_rpcat.Proxy.Cache.{Cache, close}
use g_rpcat.Proxy.Cache.Sweep.{sweep_idle-empty}
use g_rpcat.Proxy.Server.{Server}
use g_rpcat.Proxy.Lifecycle.{
  idle, closing, complete, absent, in_stop, gone, unstarted, failed, Life, new_life, begin_stop,
  close_forwarder, Step, listens, listen_fails, watcher_stops, watcher_leaves, watcher_returns,
  stop_is_called, graceful_stop_returns, forwarder_closes, serve_returns, serve_fails, rpc_starts,
  rpc_uses_cache, rpc_ends, context_ends, first_signal, second_signal, Reach, here, next,
  graceful_stop_starts, sweeper_sweeps,
}

-- A life in order.
pub record IsOrdered {g : Grpc} {MD : Type 0} (l : Life g MD) : Type 0 where
  pub drained : (l.stop_phase ≡ closing) ⊎ (l.stop_phase ≡ complete) → l.rpcs ≡ 0
  pub closed :
      l.stop_phase ≡ complete → (l.server.cache.conns ≡ []) × (l.server.cache.stopped ≡ true)
  pub told : l.stop_phase ≢ idle → l.server.stopped ≡ true
  pub untold : l.stop_phase ≡ idle → l.server.stopped ≡ false
  pub stopping : l.watcher ≡ in_stop → l.stop_phase ≢ idle
  pub unwatched : l.watcher ≡ absent → (l.serve ≡ unstarted) ⊎ (l.serve ≡ failed)
  pub left : l.watcher ≡ gone → l.stop_phase ≢ idle

close-empty : {g : Grpc} (c : Cache g) → ((close c).conns ≡ []) × ((close c).stopped ≡ true)
unfolding close
close-empty c = ground arith

module _ {g : Grpc} {MD : Type 0} where
  pub new_life-IsOrdered : (s : Server g MD) → s.stopped ≡ false → IsOrdered (new_life s)
  unfolding new_life
  new_life-IsOrdered s h = ground arith

  pub Step-IsOrdered : {l k : Life g MD} → Step l k → IsOrdered l → IsOrdered k
  unfolding begin_stop close_forwarder
  Step-IsOrdered (listens l p) i = ground arith
  Step-IsOrdered (listen_fails l p) i = ground arith
  Step-IsOrdered (watcher_stops l p q) i = ground arith
  Step-IsOrdered (watcher_leaves l p q) i = ground arith
  Step-IsOrdered (watcher_returns l p q) i = ground arith
  Step-IsOrdered (stop_is_called l) i = ground arith
  Step-IsOrdered (graceful_stop_starts l p) i = ground arith
  Step-IsOrdered (sweeper_sweeps l now is_idle p) i =
      ground (arith, sweep_idle-empty now is_idle l.server.cache)
  Step-IsOrdered (graceful_stop_returns l p q) i = ground arith
  Step-IsOrdered (forwarder_closes l p) i = ground (arith, close-empty l.server.cache)
  Step-IsOrdered (serve_returns l p q) i = ground arith
  Step-IsOrdered (serve_fails l p) i = ground arith
  Step-IsOrdered (rpc_starts l p q r) i = ground arith
  Step-IsOrdered (rpc_uses_cache l n c p) i = ground arith
  Step-IsOrdered (rpc_ends l n p) i = ground arith
  Step-IsOrdered (context_ends l) i = ground arith
  Step-IsOrdered (first_signal l p) i = ground arith
  Step-IsOrdered (second_signal l p) i = ground arith

  pub Reach-IsOrdered : {l k : Life g MD} → Reach l k → IsOrdered l → IsOrdered k
  Reach-IsOrdered here i = i
  Reach-IsOrdered (next r st) i = Step-IsOrdered st (Reach-IsOrdered r i)

  -- Once Stop is complete it stays so, and the cache is left alone.
  pub Step-complete :
      {l k : Life g MD}
      → Step l k
      → IsOrdered l
      → l.stop_phase ≡ complete
      → (k.stop_phase ≡ complete) × (k.server.cache ≡ l.server.cache)
  unfolding begin_stop close_forwarder
  Step-complete (listens l p) i h = ground arith
  Step-complete (listen_fails l p) i h = ground arith
  Step-complete (watcher_stops l p q) i h = ground arith
  Step-complete (watcher_leaves l p q) i h = ground arith
  Step-complete (watcher_returns l p q) i h = ground arith
  Step-complete (stop_is_called l) i h = ground arith
  Step-complete (graceful_stop_starts l p) i h = ground arith
  Step-complete (sweeper_sweeps l now is_idle p) i h =
      (h, sweep_idle-empty now is_idle l.server.cache (i.closed h).0)
  Step-complete (graceful_stop_returns l p q) i h = ground arith
  Step-complete (forwarder_closes l p) i h = ground arith
  Step-complete (serve_returns l p q) i h = ground arith
  Step-complete (serve_fails l p) i h = ground arith
  Step-complete (rpc_starts l p q r) i h = ground arith
  Step-complete (rpc_uses_cache l n c p) i h = ground (arith, i.drained (inr h))
  Step-complete (rpc_ends l n p) i h = ground arith
  Step-complete (context_ends l) i h = ground arith
  Step-complete (first_signal l p) i h = ground arith
  Step-complete (second_signal l p) i h = ground arith
