-- ===== src/Proxy/Running/Invariant.antt =====
-- The invariant of a running server: its life is in order, and the counts of the cache are those of
-- its RPCs.
use g_rpcat.Base.Counts.{count}
use g_rpcat.Base.{
  ℕ, suc, ◌+◌, ◌-◌, ◌<◌, ◌≤◌, ◌≡◌, refl, sym, ◌∙◌, inr, [], ◌∷◌, List, arith, length, subst,
}
use g_rpcat.Proxy.Config.{Grpc}
use g_rpcat.Proxy.Cache.{Dialer}
use g_rpcat.Proxy.Cache.Pinning
use g_rpcat.Proxy.Cache.Pinning.{
  drop_one, System, finds, finds_or_dials, fails_to_dial, pins, stamps, unpins, unlocked, locks,
  unlocks, loads_in_flight, loads_last_used, finds_recent, finds_active, evicts, removes, closes,
}
use g_rpcat.Proxy.Cache.Pinning.Safety.{
  IsCounted, Step-IsCounted, closed-IsCounted, phase-IsCounted, swept-IsCounted,
}
use g_rpcat.Proxy.Lifecycle
use g_rpcat.Proxy.Lifecycle.{
  Life, new_life, begin_stop, close_forwarder, listens, listen_fails, watcher_stops, watcher_leaves,
  watcher_returns, stop_is_called, graceful_stop_starts, graceful_stop_returns, forwarder_closes,
  serve_returns, serve_fails, rpc_starts, rpc_uses_cache, sweeper_sweeps, rpc_ends, context_ends,
  first_signal, second_signal, complete,
}
use g_rpcat.Proxy.Lifecycle.Ordering.{IsOrdered, Step-IsOrdered, Step-complete}
use g_rpcat.Proxy.Running.{
  Running, cache_of, system, pinning, MayHappen, ByRpc, Step, goes_on, uses_cache, Reach, here,
  next,
}

length-drop_one : (i : ℕ) (xs : List ℕ) → 0 < count i xs → suc (length (drop_one i xs)) ≡ length xs
unfolding count drop_one
length-drop_one i [] h = absurd (omega arith)
length-drop_one i (j ∷ xs) h = ground (arith, length-drop_one i xs)

module _ {g : Grpc} (dial : Dialer g) where
  cache-few :
      {s t : System g} (n : ℕ) (st : Pinning.Step dial s t)
      → ByRpc dial n st
      → length s.holders + length s.stamped ≤ n
      → (length t.holders + length t.stamped ≤ n) × (0 < n)
  cache-few n (finds s now i backend d l e) u h = (h, u)
  cache-few n (finds_or_dials s now i backend d l e) u h = (h, u)
  cache-few n (fails_to_dial s now m backend d l e) u h = (h, u)
  cache-few n (pins s i p) u h = omega arith
  cache-few n (stamps s now i p) u h = omega (arith, length-drop_one i s.holders p)
  cache-few n (unpins s i p) u h = omega (arith, length-drop_one i s.stamped p)
  cache-few n (locks s now l) u h = absurd u
  cache-few n (unlocks s now l) u h = absurd u
  cache-few n (loads_in_flight s now i k l found none_open) u h = absurd u
  cache-few n (loads_last_used s now i late k l old) u h = absurd u
  cache-few n (finds_recent s now i late k l new) u h = absurd u
  cache-few n (finds_active s now i late k l) u h = absurd u
  cache-few n (evicts s now i late k l) u h = absurd u
  cache-few n (removes s k l) u h = absurd u
  cache-few n (closes s l) u h = absurd u

module _ {g : Grpc} {MD : Type 0} where
  pub record IsRunning (r : Running g MD) : Type 0 where
    pub ordered : IsOrdered r.life
    pub counted : IsCounted (system r)
    pub few : pinning r ≤ r.life.rpcs

module _ {g : Grpc} {MD : Type 0} (dial : Dialer g) where
  -- The users of the cache of a server.
  abbrev users : Life g MD → List ℕ → List ℕ → List ℕ → System g
  users l handed holders stamped = record {
    cache = cache_of l;
    handed = handed;
    holders = holders;
    stamped = stamped;
    sweep = unlocked;
  }

  begin_stop-cache : (l : Life g MD) → cache_of (begin_stop l) ≡ cache_of l
  unfolding begin_stop
  begin_stop-cache l = ground arith

  life-IsCounted :
      {l k : Life g MD} (n : ℕ) (st : Lifecycle.Step l k) (xs ys zs : List ℕ)
      → MayHappen n st
      → IsCounted (users l xs ys zs)
      → IsCounted (users k xs ys zs)
  unfolding close_forwarder
  life-IsCounted n (watcher_stops l p q) xs ys zs m v =
      subst
        (λ c.
          IsCounted
            (record { cache = c; handed = xs; holders = ys; stamped = zs; sweep = unlocked }))
        (sym (begin_stop-cache _)) v
  life-IsCounted n (stop_is_called l) xs ys zs m v =
      subst
        (λ c.
          IsCounted
            (record { cache = c; handed = xs; holders = ys; stamped = zs; sweep = unlocked }))
        (sym (begin_stop-cache _)) v
  life-IsCounted n (forwarder_closes l p) xs ys zs m v = closed-IsCounted _ v
  life-IsCounted n (sweeper_sweeps l now is_idle p) xs ys zs m v = swept-IsCounted _ now is_idle v
  life-IsCounted n (rpc_uses_cache l i c p) xs ys zs m v = absurd m
  life-IsCounted n (listens l p) xs ys zs m v = v
  life-IsCounted n (listen_fails l p) xs ys zs m v = v
  life-IsCounted n (watcher_leaves l p q) xs ys zs m v = v
  life-IsCounted n (watcher_returns l p q) xs ys zs m v = v
  life-IsCounted n (graceful_stop_starts l p) xs ys zs m v = v
  life-IsCounted n (graceful_stop_returns l p q) xs ys zs m v = v
  life-IsCounted n (serve_returns l p q) xs ys zs m v = v
  life-IsCounted n (serve_fails l p) xs ys zs m v = v
  life-IsCounted n (rpc_starts l p q r) xs ys zs m v = v
  life-IsCounted n (rpc_ends l i p) xs ys zs m v = v
  life-IsCounted n (context_ends l) xs ys zs m v = v
  life-IsCounted n (first_signal l p) xs ys zs m v = v
  life-IsCounted n (second_signal l p) xs ys zs m v = v

  -- The RPCs that hold an entry are among those that run.
  life-few :
      {l k : Life g MD} (n : ℕ) (st : Lifecycle.Step l k) → MayHappen n st → n ≤ l.rpcs → n ≤ k.rpcs
  unfolding begin_stop close_forwarder
  life-few n (rpc_ends l i p) m h = omega (arith, p)
  life-few n (watcher_stops l p q) m h = ground arith
  life-few n (stop_is_called l) m h = ground arith
  life-few n (rpc_starts l p q r) m h = omega arith
  life-few n st m h = h

  Step-IsRunning : {r u : Running g MD} → Step dial r u → IsRunning r → IsRunning u
  Step-IsRunning {r} (goes_on st m) i = record {
    ordered = Step-IsOrdered st i.ordered;
    counted = life-IsCounted (pinning r) st r.handed r.holders r.stamped m i.counted;
    few = life-few (pinning r) st m i.few;
  }
  Step-IsRunning {r} (uses_cache {t = t} st u) i =
      let (few, some_rpc) = cache-few dial r.life.rpcs st u i.few in
      record {
        ordered =
            Step-IsOrdered (rpc_uses_cache r.life (r.life.rpcs - 1) t.cache (omega arith))
              i.ordered;
        counted = phase-IsCounted t unlocked (Step-IsCounted dial st i.counted);
        few = few;
      }

  pub Reach-IsRunning : {r u : Running g MD} → Reach dial r u → IsRunning r → IsRunning u
  Reach-IsRunning here i = i
  Reach-IsRunning (next q st) i = Step-IsRunning st (Reach-IsRunning q i)

  Step-still :
      {r u : Running g MD}
      → Step dial r u
      → IsRunning r
      → r.life.stop_phase ≡ complete
      → (u.life.stop_phase ≡ complete) × (cache_of u.life ≡ cache_of r.life)
  Step-still (goes_on st m) i h = Step-complete st i.ordered h
  Step-still {r} (uses_cache {t = t} st u) i h =
      absurd (omega (arith, i.ordered.drained (inr h), (cache-few dial r.life.rpcs st u i.few).1))

  pub Reach-still :
      {r u : Running g MD}
      → Reach dial r u
      → IsRunning r
      → r.life.stop_phase ≡ complete
      → (u.life.stop_phase ≡ complete) × (cache_of u.life ≡ cache_of r.life)
  Reach-still here i h = (h, refl)
  Reach-still (next q st) i h =
      let (still, same) = Reach-still q i h in
      let (still', same') = Step-still st (Reach-IsRunning q i) still in (still', same' ∙ same)
