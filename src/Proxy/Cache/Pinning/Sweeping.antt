-- ===== src/Proxy/Cache/Pinning/Sweeping.antt =====
-- The loop of a sweep as steps that nothing comes between.
use g_rpcat.Base.{ℕ, Bool}
use g_rpcat.Base.Dict.{Dict}
use g_rpcat.Proxy.Config.{Grpc}
use g_rpcat.Proxy.Cache.Entries.{Heap}
use g_rpcat.Proxy.Cache.{Dialer}
use g_rpcat.Proxy.Cache.Pinning.{System, locked}

module _ {g : Grpc} (new_client : Dialer g) where
  module _ (s : System g) (now : ℕ) (idle : ℕ → Bool) where
    -- The sweep has the lock, with a map and a heap.
    abbrev at : Dict ℕ → Heap → System g
    at m h = record s { cache = record s.cache { conns = m; heap = h }; sweep = locked now }
