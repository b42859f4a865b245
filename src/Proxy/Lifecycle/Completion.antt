-- ===== src/Proxy/Lifecycle/Completion.antt =====
-- A shutdown that has begun comes to its end.
use g_rpcat.Base.{ℕ, zero, suc, ◌<◌, ◌≡◌, ◌⊎◌, inl, inr, false, arith}
use g_rpcat.Proxy.Config.{Grpc}
use g_rpcat.Proxy.Server.{Server}
use g_rpcat.Proxy.Lifecycle.{
  Life, new_life, begin_stop, close_forwarder, Step, watcher_stops, watcher_leaves, watcher_returns,
  graceful_stop_starts, graceful_stop_returns, forwarder_closes, serve_returns, rpc_ends, Reach,
}
use g_rpcat.Proxy.Lifecycle.Ordering.{
  IsOrdered, Step-IsOrdered, new_life-IsOrdered, Reach-IsOrdered,
}
use g_rpcat.Proxy.Lifecycle.Shutdown.{
  work_left, IsDown, IsOwn, GoesOn, IsComingDown, IsComingDown-GoesOn,
}

module _ {g : Grpc} {MD : Type 0} where
  -- A run of the server's own steps.
  pub data OwnRun : Life g MD → Life g MD → Type 0 where
    ends : (l : Life g MD) → OwnRun l l
    goes : {l k n : Life g MD} (st : Step l k) → IsOwn st → OwnRun k n → OwnRun l n

  -- Every step of the server's own leaves less to do, and the shutdown goes on.
  own-work_left : {l k : Life g MD} (st : Step l k) → IsOwn st → work_left k < work_left l
  unfolding begin_stop close_forwarder
  own-work_left (watcher_stops l p q) o = ground arith
  own-work_left (watcher_leaves l p q) o = ground arith
  own-work_left (watcher_returns l p q) o = ground arith
  own-work_left (graceful_stop_starts l p) o = ground arith
  own-work_left (graceful_stop_returns l p q) o = ground arith
  own-work_left (forwarder_closes l p) o = ground arith
  own-work_left (serve_returns l p q) o = ground arith
  own-work_left (rpc_ends l n p) o = ground arith
  own-work_left st o = absurd o

  own-IsComingDown : {l k : Life g MD} (st : Step l k) → IsOwn st → IsComingDown l → IsComingDown k
  unfolding begin_stop close_forwarder
  own-IsComingDown (watcher_stops l p q) o d = record {
    started = ground (arith, d.started);
    begun = ground (arith, d.begun);
    over = ground (arith, d.over);
  }
  own-IsComingDown (watcher_leaves l p q) o d = record {
    started = ground (arith, d.started);
    begun = ground (arith, d.begun);
    over = ground (arith, d.over);
  }
  own-IsComingDown (watcher_returns l p q) o d = record {
    started = ground (arith, d.started);
    begun = ground (arith, d.begun);
    over = ground (arith, d.over);
  }
  own-IsComingDown (graceful_stop_starts l p) o d = record {
    started = ground (arith, d.started);
    begun = ground (arith, d.begun);
    over = ground (arith, d.over);
  }
  own-IsComingDown (graceful_stop_returns l p q) o d = record {
    started = ground (arith, d.started);
    begun = ground (arith, d.begun);
    over = ground (arith, d.over);
  }
  own-IsComingDown (forwarder_closes l p) o d = record {
    started = ground (arith, d.started);
    begun = ground (arith, d.begun);
    over = ground (arith, d.over);
  }
  own-IsComingDown (serve_returns l p q) o d = record {
    started = ground (arith, d.started);
    begun = ground (arith, d.begun);
    over = ground (arith, d.over);
  }
  own-IsComingDown (rpc_ends l n p) o d = record {
    started = ground (arith, d.started);
    begun = ground (arith, d.begun);
    over = ground (arith, d.over);
  }
  own-IsComingDown st o c = absurd o

  -- With enough work counted, own steps lead down.
  IsComingDown-IsDown :
      (fuel : ℕ) (l : Life g MD)
      → work_left l < fuel
      → IsOrdered l
      → IsComingDown l
      → (k : Life g MD) × OwnRun l k × IsDown k
  IsComingDown-IsDown zero l h i c = absurd (omega arith)
  IsComingDown-IsDown (suc fuel) l h i c = elim (IsComingDown-GoesOn l i c) [
    | inr down ↦ (l, ends l, down)
    | inl (k, st, own, less) ↦
        let (n, run, down) =
          IsComingDown-IsDown fuel k (omega arith) (Step-IsOrdered st i)
            (own-IsComingDown st own c) in
        (n, goes st own run, down)
  ]

  -- A server that Start has been called on, and whose context has ended while its goroutine watched
  -- or whose Stop was called, with its RPCs over or their connections closed by a second signal,
  -- comes down: unless everything has ended its own goroutines have a next step, every such step
  -- leaves less to do, and there is a run of them to the end, where Stop is complete, the goroutine
  -- of Start is gone, Serve has returned and no RPC runs.
  pub shutdown_completes :
      (s : Server g MD) (l : Life g MD)
      → s.stopped ≡ false
      → Reach (new_life s) l
      → IsComingDown l
      → (GoesOn l ⊎ IsDown l)
        × ((k : Life g MD) (st : Step l k) → IsOwn st → work_left k < work_left l)
        × ((k : Life g MD) × OwnRun l k × IsDown k)
  shutdown_completes s l fresh r c =
      let i = Reach-IsOrdered r (new_life-IsOrdered s fresh) in
      (
        IsComingDown-GoesOn l i c,
        λ k st own. own-work_left st own,
        IsComingDown-IsDown (suc (work_left l)) l (omega arith) i c,
      )
