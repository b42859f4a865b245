-- ===== src/Proxy/Cache/Racing/Invariant.antt =====
-- What holds of an entry and its users wherever a sweep is.
use g_rpcat.Base.{
  ◌⊎◌, ℕ, ◌+◌, ◌≤◌, ◌≡◌, refl, Bool, true, false, List, [], ◌∷◌, some, get_elem?, length, arith,
  if◌then◌else◌, All, All-remove_at, All-get_elem?, All-map,
}
use g_rpcat.Base.Int.{ℤ, pos}
use g_rpcat.Proxy.Cache.Entries.{close_conn}
use g_rpcat.Proxy.Cache.{positive, is_recent}
use g_rpcat.Proxy.Cache.Racing.{
  pin_entry, call_release, Sweep, unlocked, locked, counted, passed, evicted, Race, sweep_on,
}

-- At a time `n` at most, and at least a timeout before `now`.
abbrev pub By : ℕ → ℕ → Type 0
By n t = t ≤ n

abbrev pub Before : ℕ → ℕ → ℕ → Type 0
Before timeout now t = t + timeout ≤ now

-- Whose caller took at least a timeout from getEntry to the increment, but for `slack`.
abbrev pub Stalled : ℕ → ℕ → ℕ × ℕ → Type 0
Stalled timeout slack (t, p) = t + timeout ≤ p + slack

-- What lastUsed can be behind: the times up to it, but for the slack.
abbrev pub seen : Race → ℕ
seen s = s.entry.last_used + s.slack

abbrev pub Past : ℕ → ℕ → ℕ → Type 0
Past clock n t = (t ≤ clock) × (t ≤ n)

-- Handed out in the past, and pinned at `now` or later.
abbrev pub Late : ℕ → ℕ → ℕ → ℕ × ℕ → Type 0
Late clock n now (t, p) = (t ≤ clock) × (t ≤ n) × (now ≤ p)

-- Called in the past, whatever it has read.
abbrev pub Called : ℕ → ℕ × ℕ → Type 0
Called clock (t, v) = t ≤ clock

-- The sweep has found lastUsed old enough.
abbrev pub Found : ℕ → Race → ℕ → List ℕ → Type 0
Found timeout s now es =
    (now ≤ s.clock)
    × (s.entering ≡ [])
    × All (Before timeout (now + s.slack)) es
    × All (Before timeout (now + s.slack)) s.handed
    × All (Stalled timeout s.slack) s.opened

abbrev pub Swept : ℕ → Race → Sweep → Type 0
Swept timeout s unlocked = Unit
Swept timeout s (locked now) = (now ≤ s.clock) × (s.entering ≡ [])
Swept timeout s (counted now es) =
    (now ≤ s.clock)
    × (s.entering ≡ [])
    × All (Past s.clock (seen s)) es
    × All (Late s.clock (seen s) now) s.opened
Swept timeout s (passed now es) = Found timeout s now es
Swept timeout s (evicted now es) = Found timeout s now es

pub record IsFair (timeout : ℕ) (s : Race) : Type 0 where
  pub exact :
      s.entry.in_flight
      ≡ pos (length s.opened + length s.calling + length s.reading + length s.stamped)
  pub by_handed : All (Past s.clock (seen s)) s.handed
  pub by_calling : All (By s.clock) s.calling
  pub by_reading : All (Called s.clock) s.reading
  pub by_stamped : All (Past s.clock (seen s)) s.stamped
  pub by_ended : All (Past s.clock (seen s)) s.ended
  pub swept : Swept timeout s s.sweep

-- The clock goes on, and a reading may be stored that is at most the slack behind.
unfoldable pub IsLater : Race → Race → Type 0
IsLater s t = (s.clock ≤ t.clock) × (s.slack ≤ t.slack) × ((seen s ≤ seen t) ⊎ (s.clock ≤ seen t))

pub later-By : (m n : ℕ) (ts : List ℕ) → m ≤ n → All (By m) ts → All (By n) ts
later-By m n ts le = All-map (By m) (By n) ts (λ t h. omega arith)

pub later-Called : (m n : ℕ) (us : List (ℕ × ℕ)) → m ≤ n → All (Called m) us → All (Called n) us
later-Called m n us le = All-map (Called m) (Called n) us (λ u h. omega arith)

pub later-Past :
    (s t : Race) (ts : List ℕ)
    → IsLater s t
    → All (Past s.clock (seen s)) ts
    → All (Past t.clock (seen t)) ts
unfolding IsLater
later-Past s t ts (c, k, l) =
    All-map (Past s.clock (seen s)) (Past t.clock (seen t)) ts (λ x h. ground arith)

later-Late :
    (s t : Race) (now : ℕ) (us : List (ℕ × ℕ))
    → IsLater s t
    → All (Late s.clock (seen s) now) us
    → All (Late t.clock (seen t) now) us
unfolding IsLater
later-Late s t now us (c, k, l) =
    All-map (Late s.clock (seen s) now) (Late t.clock (seen t) now) us (λ x h. ground arith)

later-Found :
    (timeout now : ℕ) (es : List ℕ) (s t : Race)
    → IsLater s t
    → (s.entering ≡ [] → t.entering ≡ [])
    → t.handed ≡ s.handed
    → t.opened ≡ s.opened
    → Found timeout s now es
    → Found timeout t now es
unfolding IsLater
later-Found timeout now es s t (c, k, l) n h o (a, m, b, d, e) = (
  omega arith,
  n m,
  All-map _ _ es (λ x g. omega arith) b,
  rw h (All-map _ _ s.handed (λ x g. omega arith) d),
  rw o (All-map _ _ s.opened (λ x g. omega (arith, g)) e),
)

pub later-Swept :
    (timeout : ℕ) (s t : Race) (w : Sweep)
    → IsLater s t
    → (s.entering ≡ [] → t.entering ≡ [])
    → t.handed ≡ s.handed
    → t.opened ≡ s.opened
    → Swept timeout s w
    → Swept timeout t w
unfolding IsLater
later-Swept timeout s t unlocked l n h o v = tt
later-Swept timeout s t (locked now) l n h o (a, m) = (omega (arith, l.0), n m)
later-Swept timeout s t (counted now es) l n h o (a, m, b, d) =
    (omega (arith, l.0), n m, later-Past s t es l b, rw o (later-Late s t now s.opened l d))
later-Swept timeout s t (passed now es) l n h o v = later-Found timeout now es s t l n h o v
later-Swept timeout s t (evicted now es) l n h o v = later-Found timeout now es s t l n h o v

if-Swept :
    (timeout : ℕ) (s : Race) (b : Bool) (w x : Sweep)
    → Swept timeout s w
    → (b ≡ false → Swept timeout s x)
    → Swept timeout s (if b then w else x)
if-Swept timeout s true w x h k = h
if-Swept timeout s false w x h k = k refl

All-empty {ℓ} : {A : Type ℓ} (P : A → Type 0) (xs : List A) → length xs ≡ 0 → All P xs
All-empty P [] e = tt
All-empty P (x ∷ xs) e = absurd (omega arith)

not_positive : (i : ℤ) (n : ℕ) → i ≡ pos n → positive i ≡ false → n ≡ 0
unfolding positive
not_positive i n e h = ground arith

not_recent :
    (now last timeout : ℕ) → is_recent now last (pos timeout) ≡ false → last + timeout ≤ now
unfolding is_recent
not_recent now last timeout h = ground arith

-- The sweep's own steps.
sweep_on-Swept :
    (timeout now : ℕ) (idle : Bool) (s : Race)
    → now ≤ s.clock
    → IsFair timeout s
    → Swept timeout (sweep_on (pos timeout) now idle s) (sweep_on (pos timeout) now idle s).sweep
unfolding sweep_on
sweep_on-Swept timeout now idle s le v = go s.sweep refl v.swept
  where
    go :
        (w : Sweep)
        → s.sweep ≡ w
        → Swept timeout s w
        → Swept timeout
            (sweep_on (pos timeout) now idle (record s { sweep = w }))
            (sweep_on (pos timeout) now idle (record s { sweep = w })).sweep
    go unlocked e h = by_entering s.entering refl
      where
        by_entering :
            (r : List ℕ)
            → s.entering ≡ r
            → let s' : Race = elim r [
              | [] ↦ record s { sweep = locked now }
              | _ ↦ record s { sweep = unlocked }
            ] in
              Swept timeout s' s'.sweep
        by_entering [] e = (le, e)
        by_entering (v ∷ r) e = tt
    go (locked t) e (a, m) =
        if-Swept timeout s (positive s.entry.in_flight) unlocked (counted t s.ended) tt λ none_open.
          (
            a,
            m,
            v.by_ended,
            All-empty (Late s.clock (seen s) t) s.opened
                (omega (arith, not_positive s.entry.in_flight _ v.exact none_open)),
          )
    go (counted t es) e (a, m, b, d) =
        if-Swept timeout s (is_recent t s.entry.last_used (pos timeout)) unlocked (passed t es) tt
          λ old.
            let ago = not_recent t s.entry.last_used timeout old in
            (
              a,
              m,
              All-map _ (Before timeout (t + s.slack)) es (λ x h. omega (arith, h.1)) b,
              All-map _ (Before timeout (t + s.slack)) s.handed (λ x h. omega (arith, h.1))
                  v.by_handed,
              All-map _ (Stalled timeout s.slack) s.opened (λ x h. omega (arith, h)) d,
            )
    go (passed t es) e h = by_idle idle
      where
        by_idle :
            (b : Bool)
            → let s' =
                if b
                then record s { sweep = evicted t es; entry = close_conn s.entry }
                else record s { sweep = unlocked } in
              Swept timeout s' s'.sweep
        by_idle true = h
        by_idle false = tt
    go (evicted t es) e h = h

-- A sweep changes neither the atomics of the entry nor its users.
sweep_on-keeps :
    (timeout : ℤ) (now : ℕ) (idle : Bool) (s : Race)
    → let t = sweep_on timeout now idle s in
      (t.entry.in_flight ≡ s.entry.in_flight)
      × (t.entry.last_used ≡ s.entry.last_used)
      × (t.clock ≡ s.clock)
      × (t.slack ≡ s.slack)
      × (t.handed ≡ s.handed)
      × (t.opened ≡ s.opened)
      × (t.calling ≡ s.calling)
      × (t.reading ≡ s.reading)
      × (t.stamped ≡ s.stamped)
      × (t.ended ≡ s.ended)
unfolding sweep_on
sweep_on-keeps timeout now idle s = ground arith

pub sweep_on-IsFair :
    (timeout now : ℕ) (idle : Bool) (s : Race)
    → now ≤ s.clock
    → IsFair timeout s
    → IsFair timeout (sweep_on (pos timeout) now idle s)
sweep_on-IsFair timeout now idle s le v =
    let (count, used, clock, slack, handed, opened, calling, reading, stamped, ended) =
      sweep_on-keeps (pos timeout) now idle s in
    record {
      exact = rw (count, opened, calling, reading, stamped) v.exact;
      by_handed = rw (used, clock, slack, handed) v.by_handed;
      by_calling = rw (clock, calling) v.by_calling;
      by_reading = rw (clock, reading) v.by_reading;
      by_stamped = rw (used, clock, slack, stamped) v.by_stamped;
      by_ended = rw (used, clock, slack, ended) v.by_ended;
      swept = sweep_on-Swept timeout now idle s le v;
    }

nobody : (i v : ℕ) (r : List ℕ) → r ≡ [] → get_elem? r i ≡ some v → ⊥
nobody i v [] e h = cc
nobody i v (x ∷ r) e h = cc

pin-Found :
    (timeout i t now : ℕ) (es : List ℕ) (s : Race)
    → get_elem? s.handed i ≡ some t
    → Found timeout s now es
    → Found timeout (pin_entry i t s) now es
pin-Found timeout i t now es s e (a, m, b, d, f) = (
  a,
  m,
  b,
  All-remove_at _ i s.handed d,
  (omega (arith, All-get_elem? (Before timeout (now + s.slack)) i s.handed t d e), f),
)

-- A pin during a sweep comes behind the clock that the sweep has read.
pub pin-Swept :
    (timeout i t : ℕ) (s : Race) (w : Sweep)
    → get_elem? s.handed i ≡ some t
    → IsFair timeout s
    → Swept timeout s w
    → Swept timeout (pin_entry i t s) w
pin-Swept timeout i t s unlocked e v h = tt
pin-Swept timeout i t s (locked now) e v h = h
pin-Swept timeout i t s (counted now es) e v (a, m, b, d) =
    let (old, known) = All-get_elem? (Past s.clock (seen s)) i s.handed t v.by_handed e in
    (a, m, b, ((old, known, a), d))
pin-Swept timeout i t s (passed now es) e v h = pin-Found timeout i t now es s e h
pin-Swept timeout i t s (evicted now es) e v h = pin-Found timeout i t now es s e h

pub call-Swept :
    (timeout i : ℕ) (s : Race) (w : Sweep) → Swept timeout s w → Swept timeout (call_release i s) w
call-Swept timeout i s unlocked h = tt
call-Swept timeout i s (locked now) h = h
call-Swept timeout i s (counted now es) (a, m, b, d) = (a, m, b, All-remove_at _ i s.opened d)
call-Swept timeout i s (passed now es) (a, m, b, d, f) = (a, m, b, d, All-remove_at _ i s.opened f)
call-Swept timeout i s (evicted now es) (a, m, b, d, f) = (a, m, b, d, All-remove_at _ i s.opened f)

-- A caller in getEntry holds the lock that a sweep waits for.
pub entering-Swept :
    (timeout i v : ℕ) (s t : Race) (w : Sweep)
    → get_elem? s.entering i ≡ some v
    → Swept timeout s w
    → Swept timeout t w
entering-Swept timeout i v s t unlocked e h = tt
entering-Swept timeout i v s t (locked now) e (a, m) = absurd (nobody i v s.entering m e)
entering-Swept timeout i v s t (counted now es) e (a, m, b, d) = absurd (nobody i v s.entering m e)
entering-Swept timeout i v s t (passed now es) e (a, m, b, d, f) =
    absurd (nobody i v s.entering m e)
entering-Swept timeout i v s t (evicted now es) e (a, m, b, d, f) =
    absurd (nobody i v s.entering m e)
