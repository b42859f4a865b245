-- ===== src/Proxy/Running.antt =====
-- A running server: Start, Stop and the signals of proxy/server.go together with what the RPCs do to
-- the cache of proxy/cache.go. Each RPC calls acquire once at most and then its release. A sweep is
-- one step here, and `Pinning` has its loads.
pub mod Invariant
pub mod Stopped
mod Tests
use g_rpcat.Base.{ℕ, ◌+◌, ◌<◌, List, [], length}
use g_rpcat.Proxy.Config.{Grpc}
use g_rpcat.Proxy.Cache.{Cache, Dialer}
use g_rpcat.Proxy.Cache.Pinning
use g_rpcat.Proxy.Cache.Pinning.{
  System, finds, finds_or_dials, fails_to_dial, pins, stamps, unpins, unlocked,
}
use g_rpcat.Proxy.Server.{Server}
use g_rpcat.Proxy.Lifecycle
use g_rpcat.Proxy.Lifecycle.{
  Life, new_life, listens, listen_fails, watcher_stops, watcher_leaves, watcher_returns,
  stop_is_called, graceful_stop_starts, graceful_stop_returns, forwarder_closes, serve_returns,
  serve_fails, rpc_starts, rpc_uses_cache, sweeper_sweeps, rpc_ends, context_ends, first_signal,
  second_signal,
}

-- The life of the server, with the entries that its RPCs were handed, that they hold, and that they
-- are giving back.
pub record Running (g : Grpc) (MD : Type 0) : Type 0 where
  pub life : Life g MD
  pub handed : List ℕ
  pub holders : List ℕ
  pub stamped : List ℕ

module _ {g : Grpc} (dial : Dialer g) where
  -- What one of `n` RPCs does to the cache: it pins one entry at most. The sweeper and Close are
  -- steps of the server.
  abbrev pub ByRpc : ℕ → {s t : System g} → Pinning.Step dial s t → Type 0
  ByRpc n (finds s now i backend d l e) = 0 < n
  ByRpc n (finds_or_dials s now i backend d l e) = 0 < n
  ByRpc n (fails_to_dial s now m backend d l e) = 0 < n
  ByRpc n (pins s i h) = length s.holders + length s.stamped < n
  ByRpc n (stamps s now i h) = 0 < n
  ByRpc n (unpins s i h) = 0 < n
  ByRpc n _ = ⊥

module _ {g : Grpc} {MD : Type 0} where
  abbrev pub cache_of : Life g MD → Cache g
  cache_of l = l.server.cache

  -- The server that Start is called on.
  abbrev pub new_running : Server g MD → Running g MD
  new_running s = record { life = new_life s; handed = []; holders = []; stamped = [] }

  -- The cache and its users, between two sweeps.
  abbrev pub system : Running g MD → System g
  system r = record {
    cache = cache_of r.life;
    handed = r.handed;
    holders = r.holders;
    stamped = r.stamped;
    sweep = unlocked;
  }

  -- The RPCs that hold an entry.
  abbrev pub pinning : Running g MD → ℕ
  pinning r = length r.holders + length r.stamped

  -- What the server does, but for what its RPCs do to the cache; `n` of the RPCs hold an entry, and
  -- none of them ends, since its release is deferred.
  abbrev pub MayHappen : ℕ → {l k : Life g MD} → Lifecycle.Step l k → Type 0
  MayHappen n (rpc_uses_cache l m c p) = ⊥
  MayHappen n (rpc_ends l m p) = n < l.rpcs
  MayHappen n _ = Unit

  module _ (dial : Dialer g) where
    pub data Step (r : Running g MD) : Running g MD → Type 0 where
      goes_on :
          {k : Life g MD} (st : Lifecycle.Step r.life k)
          → MayHappen (pinning r) st
          → Step r (record r { life = k })
      uses_cache :
          {t : System g} (st : Pinning.Step dial (system r) t)
          → ByRpc dial r.life.rpcs st
          → Step r (record {
            life = record r.life { server = record r.life.server { cache = t.cache } };
            handed = t.handed;
            holders = t.holders;
            stamped = t.stamped;
          })

    pub data Reach (r : Running g MD) : Running g MD → Type 0 where
      here : Reach r r
      next : {q u : Running g MD} → Reach r q → Step q u → Reach r u
