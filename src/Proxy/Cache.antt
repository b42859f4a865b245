-- ===== src/Proxy/Cache.antt =====
-- proxy/cache.go: the pool of backend connections. The cache keeps pointers: its entries live on a
-- heap, and an entry that was evicted is still in the hands of those who acquired it. Times are in
-- nanoseconds, and each operation is given the time that it reads.
pub mod Entries
pub mod Dialing
pub mod Lookup
pub mod Sweep
pub mod Invariant
pub mod Eviction
pub mod Pinning
pub mod Backends
pub mod Racing
mod Tests
use g_rpcat.Base.{
  ℕ, zero, suc, ◌+◌, ◌<◌, ◌≡◌, Bool, true, false, not, ◌&&◌, List, [], ◌∷◌, ◌++◌, map, Option, none,
  some, Outcome, ok, err, panic, ltb, ◌==◌, if◌then◌else◌,
}
use g_rpcat.Base.Int.{ℤ, pos, negsuc, succ, pred}
use g_rpcat.Base.Texts.{Text}
use g_rpcat.Base.Dict.{Dict, lookup, insert, erase}
use g_rpcat.Proxy.Config.{Grpc}
use g_rpcat.Proxy.Cache.Entries.{Entry, Heap, update, close_conn, touch}
use g_rpcat.Proxy.Cache.Dialing.{CacheConfig, DialArgument, dial_options}

-- The cache with the heap of its entries, of which `next` were made.
pub record Cache (g : Grpc) : Type 0 where
  pub config : CacheConfig g
  pub conns : Dict ℕ
  pub heap : Heap
  pub next : ℕ
  -- stopSweeper: there is none, it is open, or it was closed
  pub sweeper : Option Bool
  pub stopped : Bool

-- grpc.NewClient, which gives a connection or the number of an error.
abbrev pub Dialer : Grpc → Type 0
Dialer g = Text → List (DialArgument g) → Option ℕ

abbrev pub Found : Grpc → Type 0
Found g = Outcome ℕ ℕ × Cache g

module _ {g : Grpc} where
  unfoldable pub new_connection_cache :
      Option g.Keepalive → Option g.Creds → List g.DialOption → Cache g
  new_connection_cache ka creds opts = record {
    config = record {
      keepalive = ka;
      transport_creds = creds;
      dial_opts = opts;
      max_recv_msg_size = pos 0;
      max_send_msg_size = pos 0;
      idle_timeout = pos 0;
    };
    conns = [];
    heap = λ _. record { last_used = 0; in_flight = pos 0; open_conn = false };
    next = 0;
    sweeper = none;
    stopped = false;
  }

  -- The read-locked section of getEntry.
  unfoldable pub fast_path : ℕ → Text → Cache g → Option (ℕ × Cache g)
  fast_path now backend c = elim (lookup backend c.conns) [
    | none ↦ none
    | some i ↦ some (i, record c { heap = update i (touch now) c.heap })
  ]

  -- The entry of a connection that was just made.
  pub create : ℕ → Text → Cache g → Cache g
  create now backend c = record c {
    heap =
        update c.next (λ _. record { last_used = now; in_flight = pos 0; open_conn = true }) c.heap;
    conns = insert backend c.next c.conns;
    next = c.next + 1;
  }

  -- The write-locked section, which looks again before it dials.
  unfoldable pub slow_path : Dialer g → ℕ → Text → Cache g → Found g
  unfolding create
  slow_path new_client now backend c = elim (lookup backend c.conns) [
    | some i ↦ (ok i, record c { heap = update i (touch now) c.heap })
    | none ↦ elim (new_client backend (dial_options c.config)) [
      | some e ↦ (err e, c)
      | none ↦ (ok c.next, create now backend c)
    ]
  ]

  -- getEntry, with the time that each section reads; the entry is a pointer.
  unfoldable pub get_entry : Dialer g → ℕ → ℕ → Text → Cache g → Found g
  unfolding fast_path slow_path
  get_entry new_client now later backend c = elim (fast_path now backend c) [
    | some (i, d) ↦ (ok i, d)
    | none ↦ slow_path new_client later backend c
  ]

  -- entry.inFlight.Add(1), and the two steps of a release
  unfoldable pub pin : ℕ → Cache g → Cache g
  pin i c = record c { heap = update i (λ e. record e { in_flight = succ e.in_flight }) c.heap }

  unfoldable pub stamp : ℕ → ℕ → Cache g → Cache g
  stamp now i c = record c { heap = update i (touch now) c.heap }

  unfoldable pub unpin : ℕ → Cache g → Cache g
  unpin i c = record c { heap = update i (λ e. record e { in_flight = pred e.in_flight }) c.heap }

  unfoldable pub pin_found : Found g → Found g
  pin_found (ok i, c) = (ok i, pin i c)
  pin_found (err e, c) = (err e, c)
  pin_found (panic, c) = (panic, c)

  unfoldable pub acquire : Dialer g → ℕ → ℕ → Text → Cache g → Found g
  unfolding pin_found get_entry pin
  acquire new_client now later backend c = pin_found (get_entry new_client now later backend c)

  unfoldable pub release : ℕ → ℕ → Cache g → Cache g
  unfolding stamp unpin
  release now i c = unpin i (stamp now i c)

unfoldable pub positive : ℤ → Bool
positive (pos zero) = false
positive (pos (suc n)) = true
positive (negsuc n) = false

-- now.Sub(lastUsed) < idleTimeout
unfoldable pub is_recent : ℕ → ℕ → ℤ → Bool
is_recent now last (pos t) = ltb now (last + t)
is_recent now last (negsuc t) = ltb (now + suc t) last

-- The checks of sweepIdle on an entry, `idle` being whether grpc reports connectivity.Idle.
unfoldable pub is_evictable : ℕ → ℤ → Bool → Entry → Bool
unfolding positive is_recent
is_evictable now timeout idle e =
    if positive e.in_flight
    then false
    else if is_recent now e.last_used timeout
    then false
    else idle

-- The loop of sweepIdle over the map; `idle i` is what GetState of the i-th connection gives.
pub sweep_from : ℕ → ℤ → (ℕ → Bool) → Dict ℕ → Heap → Dict ℕ × Heap
sweep_from now timeout idle [] h = ([], h)
sweep_from now timeout idle ((backend, i) ∷ m) h = elim (is_evictable now timeout (idle i) (h i)) [
  | true ↦ sweep_from now timeout idle m (update i close_conn h)
  | false ↦ let (m', h') = sweep_from now timeout idle m h in ((backend, i) ∷ m', h')
]

close_all : Dict ℕ → Heap → Heap
close_all [] h = h
close_all ((backend, i) ∷ m) h = close_all m (update i close_conn h)

module _ {g : Grpc} where
  unfoldable pub sweep_idle : ℕ → (ℕ → Bool) → Cache g → Cache g
  unfolding sweep_from is_evictable
  sweep_idle now idle c =
      let (conns, heap) = sweep_from now c.config.idle_timeout idle c.conns c.heap in
      record c { conns = conns; heap = heap }

  -- The goroutine of the sweeper starts only with a positive timeout.
  unfoldable pub start_sweeper : Cache g → Cache g
  unfolding positive
  start_sweeper c = if positive c.config.idle_timeout then record c { sweeper = some true } else c

  -- A tick of the sweeper's goroutine, which has returned once the channel is closed.
  unfoldable pub sweeper_tick : ℕ → (ℕ → Bool) → Cache g → Cache g
  unfolding sweep_idle
  sweeper_tick now idle c = elim c.sweeper [
    | some true ↦ sweep_idle now idle c
    | some false ↦ c
    | none ↦ c
  ]

  -- stopOnce.Do(…)
  pub stop_sweeper : Cache g → Cache g
  stop_sweeper c = if c.stopped then c else record c {
    stopped = true;
    sweeper = elim c.sweeper [ none ↦ none | some _ ↦ some false ];
  }

  unfoldable pub close : Cache g → Cache g
  unfolding stop_sweeper close_all
  close c = let d = stop_sweeper c in record d { heap = close_all d.conns d.heap; conns = [] }

  unfoldable pub remove : Text → Cache g → Cache g
  remove backend c = elim (lookup backend c.conns) [
    | none ↦ c
    | some i ↦ record c { heap = update i close_conn c.heap; conns = erase backend c.conns }
  ]
