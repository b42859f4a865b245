-- ===== src/Proxy/Lifecycle/Shutdown.antt =====
-- A shutdown that has begun can always go on, by a step that leaves less to do.
use g_rpcat.Base.{ℕ, zero, suc, ◌+◌, ◌<◌, ◌≡◌, ◌≢◌, ◌⊎◌, inl, inr, refl, true, arith}
use g_rpcat.Proxy.Config.{Grpc}
use g_rpcat.Proxy.Lifecycle.{
  announced, graceful_stop_starts, StopPhase, idle, draining, closing, complete, Watcher, absent,
  watching, in_stop, gone, Serving, unstarted, serving, returned, failed, Life, begin_stop,
  close_forwarder, Step, watcher_stops, watcher_leaves, watcher_returns, graceful_stop_returns,
  forwarder_closes, serve_returns, rpc_ends,
}
use g_rpcat.Proxy.Lifecycle.Ordering.{IsOrdered}

-- What is left to do.
abbrev stop_work : StopPhase → ℕ
stop_work idle = 4
stop_work announced = 3
stop_work draining = 2
stop_work closing = 1
stop_work complete = 0

abbrev watcher_work : Watcher → ℕ
watcher_work absent = 0
watcher_work watching = 2
watcher_work in_stop = 1
watcher_work gone = 0

abbrev serve_work : Serving → ℕ
serve_work unstarted = 0
serve_work serving = 1
serve_work returned = 0
serve_work failed = 0

abbrev pub work_left : {g : Grpc} {MD : Type 0} → Life g MD → ℕ
work_left l = l.rpcs + stop_work l.stop_phase + watcher_work l.watcher + serve_work l.serve

-- Nothing of the server runs any more.
abbrev HasReturned : Serving → Type 0
HasReturned unstarted = ⊥
HasReturned serving = ⊥
HasReturned returned = Unit
HasReturned failed = Unit

abbrev pub IsDown : {g : Grpc} {MD : Type 0} → Life g MD → Type 0
IsDown l =
    (l.stop_phase ≡ complete)
    × (l.rpcs ≡ 0)
    × ((l.watcher ≡ absent) ⊎ (l.watcher ≡ gone))
    × HasReturned l.serve

module _ {g : Grpc} {MD : Type 0} where
  -- The steps that need no caller, no client and no signal: those of the server's own goroutines,
  -- and the end of an RPC whose connection was closed.
  abbrev pub IsOwn : {l k : Life g MD} → Step l k → Type 0
  IsOwn (watcher_stops l p q) = Unit
  IsOwn (watcher_leaves l p q) = Unit
  IsOwn (watcher_returns l p q) = Unit
  IsOwn (graceful_stop_starts l p) = Unit
  IsOwn (graceful_stop_returns l p q) = Unit
  IsOwn (forwarder_closes l p) = Unit
  IsOwn (serve_returns l p q) = Unit
  IsOwn (rpc_ends l n p) = l.forced ≡ true
  IsOwn _ = ⊥

  -- A step of the server's own that leaves less to do.
  abbrev pub GoesOn : Life g MD → Type 0
  GoesOn l = (k : Life g MD) × (st : Step l k) × IsOwn st × (work_left k < work_left l)

  watcher-GoesOn :
      (l : Life g MD) (w : Watcher)
      → IsOrdered l
      → l.watcher ≡ w
      → l.stop_phase ≡ complete
      → GoesOn l ⊎ ((w ≡ absent) ⊎ (w ≡ gone))
  watcher-GoesOn l absent i e h = inr (inl refl)
  watcher-GoesOn l gone i e h = inr (inr refl)
  watcher-GoesOn l watching i e h =
      inl (_, watcher_leaves l e (i.told (ground arith)), tt, ground arith)
  watcher-GoesOn l in_stop i e h = inl (_, watcher_returns l e h, tt, ground arith)

  serve-GoesOn :
      (l : Life g MD) (v : Serving)
      → l.serve ≡ v
      → v ≢ unstarted
      → l.stop_phase ≡ complete
      → GoesOn l ⊎ HasReturned v
  serve-GoesOn l unstarted e started h = absurd (started refl)
  serve-GoesOn l serving e started h =
      inl (_, serve_returns l e (inl (ground arith, ground arith)), tt, ground arith)
  serve-GoesOn l returned e started h = inr tt
  serve-GoesOn l failed e started h = inr tt

  draining-GoesOn :
      (l : Life g MD) (n : ℕ)
      → l.stop_phase ≡ draining
      → l.rpcs ≡ n
      → (l.forced ≡ true) ⊎ (l.rpcs ≡ 0)
      → GoesOn l
  draining-GoesOn l zero e f over = (_, graceful_stop_returns l e f, tt, ground arith)
  draining-GoesOn l (suc n) e f over = (_, rpc_ends l n f, ground arith, ground arith)

  stop-GoesOn :
      (l : Life g MD) (p : StopPhase)
      → IsOrdered l
      → l.stop_phase ≡ p
      → p ≢ idle
      → l.serve ≢ unstarted
      → (l.forced ≡ true) ⊎ (l.rpcs ≡ 0)
      → GoesOn l ⊎ IsDown l
  unfolding close_forwarder
  stop-GoesOn l idle i e begun started over = absurd (begun refl)
  stop-GoesOn l announced i e begun started over =
      inl (_, graceful_stop_starts l e, tt, ground arith)
  stop-GoesOn l draining i e begun started over = inl (draining-GoesOn l l.rpcs e refl over)
  stop-GoesOn l closing i e begun started over = inl (_, forwarder_closes l e, tt, ground arith)
  stop-GoesOn l complete i e begun started over = elim (watcher-GoesOn l l.watcher i refl e) [
    | inl go ↦ inl go
    | inr watcher ↦ elim (serve-GoesOn l l.serve refl started e) [
      | inl go ↦ inl go
      | inr serve ↦ inr (e, i.drained (inr e), watcher, serve)
    ]
  ]

  -- Start was called; the context has ended while its goroutine watched, or Stop was called; and the
  -- RPCs are over, or a second signal has closed their connections.
  pub record IsComingDown (l : Life g MD) : Type 0 where
    pub started : l.serve ≢ unstarted
    pub begun : ((l.context_done ≡ true) × (l.watcher ≢ absent)) ⊎ (l.stop_phase ≢ idle)
    pub over : (l.forced ≡ true) ⊎ (l.rpcs ≡ 0)

  -- Unless everything has ended, there is a next step.
  pub IsComingDown-GoesOn : (l : Life g MD) → IsOrdered l → IsComingDown l → GoesOn l ⊎ IsDown l
  unfolding begin_stop
  IsComingDown-GoesOn l i c = by_phase l.watcher l.stop_phase refl refl c.begun
    where
      by_phase :
          (w : Watcher) (p : StopPhase)
          → l.watcher ≡ w
          → l.stop_phase ≡ p
          → ((l.context_done ≡ true) × (l.watcher ≢ absent)) ⊎ (l.stop_phase ≢ idle)
          → GoesOn l ⊎ IsDown l
      by_phase w announced e f b = stop-GoesOn l announced i f (ground arith) c.started c.over
      by_phase w draining e f b = stop-GoesOn l draining i f (ground arith) c.started c.over
      by_phase w closing e f b = stop-GoesOn l closing i f (ground arith) c.started c.over
      by_phase w complete e f b = stop-GoesOn l complete i f (ground arith) c.started c.over
      by_phase watching idle e f (inl (done, has_one)) =
          inl (_, watcher_stops l e done, tt, ground arith)
      by_phase absent idle e f (inl (done, has_one)) = absurd (has_one e)
      by_phase in_stop idle e f (inl (done, has_one)) = absurd (i.stopping e f)
      by_phase gone idle e f (inl (done, has_one)) = absurd (i.left e f)
      by_phase w idle e f (inr b) = absurd (b f)
