-- ===== src/Proxy/Cache/Backends.antt =====
-- What the cache of proxy/cache.go is to its callers: a map from backends to connections, each with
-- its times and counts, without pointers, without an order of the keys, and without the connections
-- that it has let go of. Its operations are those of the cache, in any sequence.
pub mod Refinement
mod Tests
use g_rpcat.Base.{
  ℕ, ◌+◌, Bool, true, false, List, [], ◌∷◌, Option, none, some, Outcome, ok, err, panic, ◌==◌,
  if◌then◌else◌,
}
use g_rpcat.Base.Int.{pos, succ, pred}
use g_rpcat.Base.Texts.{Text, same}
use g_rpcat.Base.Dict.{lookup}
use g_rpcat.Proxy.Config.{Grpc}
use g_rpcat.Proxy.Cache.Entries.{Entry, Heap, touch}
use g_rpcat.Proxy.Cache.Dialing.{CacheConfig, dial_options}
use g_rpcat.Proxy.Cache.{
  Cache, Dialer, get_entry, acquire, release, is_evictable, sweep_idle, remove, close,
}

-- A connection by its number, and its entry.
abbrev pub Finding : Type 0
Finding = Option (ℕ × Entry)

pub record Backends (g : Grpc) : Type 0 where
  pub config : CacheConfig g
  pub find : Text → Finding
  pub made : ℕ

abbrev pub seen : Heap → Option ℕ → Finding
seen h none = none
seen h (some i) = some (i, h i)

-- The calls of one caller; a release is that of the connection with a number.
pub data Use : Type 0 where
  gets acquires : ℕ → ℕ → Text → Use
  releases : ℕ → ℕ → Use
  sweeps : ℕ → (ℕ → Bool) → Use
  removes : Text → Use
  closes : Use

abbrev pub put : Text → Finding → (Text → Finding) → Text → Finding
put k v f j = if same k j then v else f j

-- A change to the connection with this number.
abbrev pub changed : ℕ → (Entry → Entry) → Finding → Finding
changed i f none = none
changed i f (some (j, e)) = some (j, if i == j then f e else e)

abbrev pub counted_up : Entry → Entry
counted_up e = record e { in_flight = succ e.in_flight }

abbrev pub released : ℕ → Entry → Entry
released now e = record e { last_used = now; in_flight = pred e.in_flight }

abbrev pub fresh : ℕ → Entry
fresh now = record { last_used = now; in_flight = pos 0; open_conn = true }

-- The answer, of those calls that have one, and the map that they leave.
abbrev pub Answered : Type 0 → Type 0
Answered S = Option (Outcome ℕ ℕ) × S

abbrev pub answered : {S : Type 0} → Outcome ℕ ℕ × S → Answered S
answered (r, s) = (some r, s)

module _ {g : Grpc} where
  abbrev pub view : Cache g → Backends g
  view c = record { config = c.config; find = λ k. seen c.heap (lookup k c.conns); made = c.next }

  abbrev pub change : ℕ → (Entry → Entry) → Backends g → Backends g
  change i f b = record b { find = λ k. changed i f (b.find k) }

  abbrev pub dialled : ℕ → Text → Backends g → Option ℕ → Outcome ℕ ℕ × Backends g
  dialled later k b (some e) = (err e, b)
  dialled later k b none =
      (ok b.made, record b { find = put k (some (b.made, fresh later)) b.find; made = b.made + 1 })

  -- A connection that is there is touched and handed out; another one is dialled.
  abbrev pub got : Dialer g → ℕ → ℕ → Text → Backends g → Finding → Outcome ℕ ℕ × Backends g
  got dial now later k b (some (i, e)) =
      (ok i, record b { find = put k (some (i, touch now e)) b.find })
  got dial now later k b none = dialled later k b (dial k (dial_options b.config))

  abbrev pub pinned : Outcome ℕ ℕ × Backends g → Outcome ℕ ℕ × Backends g
  pinned (ok i, b) = (ok i, change i counted_up b)
  pinned (err e, b) = (err e, b)
  pinned (panic, b) = (panic, b)

  abbrev pub swept : ℕ → (ℕ → Bool) → Backends g → Finding → Finding
  swept now idle b none = none
  swept now idle b (some (i, e)) =
      if is_evictable now b.config.idle_timeout (idle i) e then none else some (i, e)

  unfoldable pub use_backends : Dialer g → Use → Backends g → Answered (Backends g)
  use_backends dial (gets now later k) b = answered (got dial now later k b (b.find k))
  use_backends dial (acquires now later k) b = answered (pinned (got dial now later k b (b.find k)))
  use_backends dial (releases now i) b = (none, change i (released now) b)
  use_backends dial (sweeps now idle) b =
      (none, record b { find = λ k. swept now idle b (b.find k) })
  use_backends dial (removes k) b = (none, record b { find = put k none b.find })
  use_backends dial closes b = (none, record b { find = λ k. none })

  -- The same calls of the cache itself.
  unfoldable pub use_cache : Dialer g → Use → Cache g → Answered (Cache g)
  unfolding get_entry acquire release sweep_idle remove close
  use_cache dial (gets now later k) c = answered (get_entry dial now later k c)
  use_cache dial (acquires now later k) c = answered (acquire dial now later k c)
  use_cache dial (releases now i) c = (none, release now i c)
  use_cache dial (sweeps now idle) c = (none, sweep_idle now idle c)
  use_cache dial (removes k) c = (none, remove k c)
  use_cache dial closes c = (none, close c)

-- A sequence of calls, with the answer to each.
abbrev pub Trace : Type 0 → Type 0
Trace S = List (Option (Outcome ℕ ℕ)) × S

unfoldable pub use_all :
    {S : Type 0} → (Use → S → Option (Outcome ℕ ℕ) × S) → List Use → S → Trace S
use_all step [] s = ([], s)
use_all step (u ∷ us) s = let (r, t) = step u s in let (rs, v) = use_all step us t in (r ∷ rs, v)
