-- ===== src/Proxy/Cache/Entries.antt =====
-- cachedConn of proxy/cache.go, and the heap that its pointers refer to.
use g_rpcat.Base.{ℕ, Bool, false, ◌==◌, if◌then◌else◌}
use g_rpcat.Base.Int.{ℤ}

-- An entry with its connection, which is open until Close is called on it.
pub record Entry : Type 0 where
  pub last_used : ℕ
  pub in_flight : ℤ
  pub open_conn : Bool

abbrev pub Heap : Type 0
Heap = ℕ → Entry

unfoldable pub update : ℕ → (Entry → Entry) → Heap → Heap
update i f h j = if i == j then f (h j) else h j

-- entry.lastUsed.Store(now)
abbrev pub touch : ℕ → Entry → Entry
touch now e = record e { last_used = now }

-- entry.conn.Close()
abbrev pub close_conn : Entry → Entry
close_conn e = record e { open_conn = false }
