-- ===== src/Proxy/Cache/Pinning.antt =====
-- The cache under concurrent use: getEntry's two sections, the increment of inFlight, the two steps
-- of a release, each load of a sweep and what it then does to the entry, and the other callers, each
-- an atomic step, in any order. A sweep holds c.mu, which getEntry, Remove and Close wait for; the
-- increment of inFlight and a release take no lock.
pub mod Counting
pub mod Safety
pub mod Closing
pub mod Sweeping
use g_rpcat.Base.Counts.{count, count-cons}
use g_rpcat.Base.{
  ℕ, zero, suc, ◌+◌, ◌-◌, ◌<◌, ◌≡◌, refl, Bool, true, false, List, [], ◌∷◌, Option, none, some,
  Outcome, ok, err, arith, ◌==◌, if◌then◌else◌,
}
use g_rpcat.Base.Texts.{Text}
use g_rpcat.Base.Dict.{lookup}
use g_rpcat.Proxy.Config.{Grpc}
use g_rpcat.Proxy.Cache.{
  Cache, Dialer, fast_path, slow_path, pin, stamp, unpin, close, remove, positive, is_recent,
}

-- The list without one occurrence of a pointer.
unfoldable pub drop_one : ℕ → List ℕ → List ℕ
drop_one i [] = []
drop_one i (j ∷ xs) = if i == j then xs else j ∷ drop_one i xs

-- Where a sweep is: it does not run, it has the lock and goes on to some entry of the map, or it has
-- loaded inFlight of the entry of a key, and then lastUsed. It runs at `now`, and `late` streams were
-- pinned on the entry since inFlight was loaded.
pub data SweepPhase : Type 0 where
  unlocked : SweepPhase
  locked : (now : ℕ) → SweepPhase
  loaded found_old : (now : ℕ) → Text → (i : ℕ) → (late : ℕ) → SweepPhase

-- A stream is pinned on the i-th entry.
unfoldable pub pin_phase : ℕ → SweepPhase → SweepPhase
pin_phase i unlocked = unlocked
pin_phase i (locked now) = locked now
pin_phase i (loaded now k j late) = loaded now k j (if i == j then suc late else late)
pin_phase i (found_old now k j late) = found_old now k j (if i == j then suc late else late)

-- The cache and its users: the entries that getEntry has handed out, those of the streams that are
-- open, and those of the releases that have stamped the entry and not yet counted it down.
pub record System (g : Grpc) : Type 0 where
  pub cache : Cache g
  pub handed : List ℕ
  pub holders : List ℕ
  pub stamped : List ℕ
  pub sweep : SweepPhase

module _ {g : Grpc} (new_client : Dialer g) where
  pub data Step : System g → System g → Type 0 where
    finds :
        (s : System g) (now i : ℕ) (backend : Text) (d : Cache g)
        → s.sweep ≡ unlocked
        → fast_path now backend s.cache ≡ some (i, d)
        → Step s (record s { cache = d; handed = i ∷ s.handed })
    finds_or_dials :
        (s : System g) (now i : ℕ) (backend : Text) (d : Cache g)
        → s.sweep ≡ unlocked
        → slow_path new_client now backend s.cache ≡ (ok i, d)
        → Step s (record s { cache = d; handed = i ∷ s.handed })
    fails_to_dial :
        (s : System g) (now e : ℕ) (backend : Text) (d : Cache g)
        → s.sweep ≡ unlocked
        → slow_path new_client now backend s.cache ≡ (err e, d)
        → Step s (record s { cache = d })
    pins :
        (s : System g) (i : ℕ)
        → 0 < count i s.handed
        → Step s (record s {
          cache = pin i s.cache;
          holders = i ∷ s.holders;
          sweep = pin_phase i s.sweep;
        })
    stamps :
        (s : System g) (now i : ℕ)
        → 0 < count i s.holders
        → Step s (record s {
          cache = stamp now i s.cache;
          holders = drop_one i s.holders;
          stamped = i ∷ s.stamped;
        })
    unpins :
        (s : System g) (i : ℕ)
        → 0 < count i s.stamped
        → Step s (record s { cache = unpin i s.cache; stamped = drop_one i s.stamped })
    locks : (s : System g) (now : ℕ) → s.sweep ≡ unlocked → Step s (record s { sweep = locked now })
    unlocks :
        (s : System g) (now : ℕ) → s.sweep ≡ locked now → Step s (record s { sweep = unlocked })
    -- A sweep loads inFlight of an entry of the map, and goes on with it if there is no stream.
    loads_in_flight :
        (s : System g) (now i : ℕ) (k : Text)
        → s.sweep ≡ locked now
        → lookup k s.cache.conns ≡ some i
        → positive (s.cache.heap i).in_flight ≡ false
        → Step s (record s { sweep = loaded now k i 0 })
    loads_last_used :
        (s : System g) (now i late : ℕ) (k : Text)
        → s.sweep ≡ loaded now k i late
        → is_recent now (s.cache.heap i).last_used s.cache.config.idle_timeout ≡ false
        → Step s (record s { sweep = found_old now k i late })
    finds_recent :
        (s : System g) (now i late : ℕ) (k : Text)
        → s.sweep ≡ loaded now k i late
        → is_recent now (s.cache.heap i).last_used s.cache.config.idle_timeout ≡ true
        → Step s (record s { sweep = locked now })
    -- GetState is not connectivity.Idle.
    finds_active :
        (s : System g) (now i late : ℕ) (k : Text)
        → s.sweep ≡ found_old now k i late
        → Step s (record s { sweep = locked now })
    -- GetState is connectivity.Idle: entry.conn.Close() and delete, of the key's entry.
    evicts :
        (s : System g) (now i late : ℕ) (k : Text)
        → s.sweep ≡ found_old now k i late
        → Step s (record s { cache = remove k s.cache; sweep = locked now })
    removes :
        (s : System g) (backend : Text)
        → s.sweep ≡ unlocked
        → Step s (record s { cache = remove backend s.cache })
    closes : (s : System g) → s.sweep ≡ unlocked → Step s (record s { cache = close s.cache })

  -- What follows from a system by any number of steps.
  pub data Reach (s : System g) : System g → Type 0 where
    here : Reach s s
    next : {t u : System g} → Reach s t → Step t u → Reach s u
