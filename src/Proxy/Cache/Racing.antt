-- ===== src/Proxy/Cache/Racing.antt =====
-- One entry of proxy/cache.go and a sweep over it, with each reading of the clock and each load and
-- store of the entry's two atomics as a step of its own. sweepIdle holds c.mu, which getEntry waits
-- for and which waits for getEntry; the increment of inFlight and a release take no lock.
pub mod Invariant
pub mod Idle
mod Tests
use g_rpcat.Base.{
  ℕ, zero, suc, ◌-◌, leb, ◌≤◌, ◌≡◌, Bool, true, false, List, [], ◌∷◌, Option, none, some, get_elem?,
  remove_at, if◌then◌else◌,
}
use g_rpcat.Base.Int.{ℤ, pos, succ, pred}
use g_rpcat.Proxy.Cache.Entries.{Entry, touch, close_conn}
use g_rpcat.Proxy.Cache.{positive, is_recent}

-- Where a sweep is with the entry: it has not begun, it has the lock, it has loaded inFlight and then
-- lastUsed, or it has closed the connection. It has read the clock at `now`, and before it loaded
-- inFlight the releases that were called at the given times had come to their end.
pub data Sweep : Type 0 where
  unlocked : Sweep
  locked : (now : ℕ) → Sweep
  counted passed evicted : (now : ℕ) → List ℕ → Sweep

-- The entry and its users: the clock readings of those in getEntry that have not stored theirs, when
-- getEntry handed the entry out to those that have not pinned it yet, when it was handed out and
-- pinned for the streams that are open, when the releases were called that have not read the clock,
-- those that have, with their readings, those that have stored them and not decremented inFlight, and
-- those that have ended. `slack` is the longest time from a reading of the clock to its store so far.
pub record Race : Type 0 where
  pub clock : ℕ
  pub entry : Entry
  pub entering : List ℕ
  pub handed : List ℕ
  pub opened : List (ℕ × ℕ)
  pub calling : List ℕ
  pub reading : List (ℕ × ℕ)
  pub stamped : List ℕ
  pub ended : List ℕ
  pub slack : ℕ
  pub sweep : Sweep

-- getEntry has just made the entry, with its clock reading `v`.
abbrev pub new_race : ℕ → ℕ → Race
new_race v now = record {
  clock = now;
  entry = record { last_used = v; in_flight = pos 0; open_conn = true };
  entering = [];
  handed = now ∷ [];
  opened = [];
  calling = [];
  reading = [];
  stamped = [];
  ended = [];
  slack = now - v;
  sweep = unlocked;
}

-- The next step of sweepIdle on the entry, whose Lock waits for those in getEntry; `idle` is whether grpc reports connectivity.Idle.
unfoldable pub sweep_on : ℤ → ℕ → Bool → Race → Race
unfolding positive is_recent
sweep_on timeout now idle s = elim s.sweep [
  | unlocked ↦ elim s.entering [ [] ↦ record s { sweep = locked now } | _ ↦ s ]
  | locked t ↦ record s {
    sweep = if positive s.entry.in_flight then unlocked else counted t s.ended;
  }
  | counted t es ↦ record s {
    sweep = if is_recent t s.entry.last_used timeout then unlocked else passed t es;
  }
  | passed t es ↦
      if idle
      then record s { sweep = evicted t es; entry = close_conn s.entry }
      else record s { sweep = unlocked }
  | evicted t es ↦ s
]

-- getEntry finds the entry and reads the clock.
abbrev pub enter : Race → Race
enter s = record s { entering = s.clock ∷ s.entering }

abbrev pub max : ℕ → ℕ → ℕ
max a b = if leb a b then b else a

-- entry.lastUsed.Store of a clock reading `v`
abbrev pub store : ℕ → Race → Race
store v s = record s { entry = touch v s.entry; slack = max s.slack (s.clock - v) }

-- getEntry stores its reading and hands the entry out.
abbrev pub hand_out : ℕ → ℕ → Race → Race
hand_out i v s = record (store v s) {
  entering = remove_at i s.entering;
  handed = s.clock ∷ s.handed;
}

-- entry.inFlight.Add(1), by the i-th caller that the entry was handed to
abbrev pub pin_entry : ℕ → ℕ → Race → Race
pin_entry i t s = record s {
  entry = record s.entry { in_flight = succ s.entry.in_flight };
  handed = remove_at i s.handed;
  opened = (t, s.clock) ∷ s.opened;
}

-- The i-th open stream ends, and release is called.
abbrev pub call_release : ℕ → Race → Race
call_release i s = record s { opened = remove_at i s.opened; calling = s.clock ∷ s.calling }

-- time.Now().UnixNano() of a release, and then its store
abbrev pub read_clock : ℕ → ℕ → Race → Race
read_clock i t s = record s { calling = remove_at i s.calling; reading = (t, s.clock) ∷ s.reading }

abbrev pub stamp_entry : ℕ → ℕ × ℕ → Race → Race
stamp_entry i (t, v) s = record (store v s) {
  reading = remove_at i s.reading;
  stamped = t ∷ s.stamped;
}

-- entry.inFlight.Add(-1)
abbrev pub unpin_entry : ℕ → ℕ → Race → Race
unpin_entry i t s = record s {
  entry = record s.entry { in_flight = pred s.entry.in_flight };
  stamped = remove_at i s.stamped;
  ended = t ∷ s.ended;
}

module _ (timeout : ℤ) where
  pub data Step (s : Race) : Race → Type 0 where
    waits : (later : ℕ) → s.clock ≤ later → Step s (record s { clock = later })
    -- while no sweep has the lock and the entry is in the map
    enters : s.sweep ≡ unlocked → Step s (enter s)
    hands_out : (i v : ℕ) → get_elem? s.entering i ≡ some v → Step s (hand_out i v s)
    pins : (i t : ℕ) → get_elem? s.handed i ≡ some t → Step s (pin_entry i t s)
    calls_release : (i : ℕ) (u : ℕ × ℕ) → get_elem? s.opened i ≡ some u → Step s (call_release i s)
    reads_clock : (i t : ℕ) → get_elem? s.calling i ≡ some t → Step s (read_clock i t s)
    stamps : (i : ℕ) (u : ℕ × ℕ) → get_elem? s.reading i ≡ some u → Step s (stamp_entry i u s)
    unpins : (i t : ℕ) → get_elem? s.stamped i ≡ some t → Step s (unpin_entry i t s)
    sweeps : (now : ℕ) (idle : Bool) → now ≤ s.clock → Step s (sweep_on timeout now idle s)

  pub data Reach (s : Race) : Race → Type 0 where
    here : Reach s s
    next : {t u : Race} → Reach s t → Step t u → Reach s u
