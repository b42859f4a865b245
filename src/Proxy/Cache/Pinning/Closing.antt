-- ===== src/Proxy/Cache/Pinning/Closing.antt =====
-- Which connections a sweep closes.
use g_rpcat.Base.Counts.{count-cons}
use g_rpcat.Base.{
  ℕ, ◌≤◌, ◌≡◌, refl, sym, ◌∙◌, ◌⊎◌, inl, inr, true, false, ◌∷◌, some, arith, Option-cases, subst,
}
use g_rpcat.Base.Int.{pos, succ, pred}
use g_rpcat.Base.Texts.{Text}
use g_rpcat.Base.Dict.{lookup}
use g_rpcat.Proxy.Config.{Grpc}
use g_rpcat.Proxy.Cache.Entries.{Entry, Heap, update, touch, close_conn}
use g_rpcat.Proxy.Cache.Dialing.{dial_options}
use g_rpcat.Proxy.Cache.{
  Cache, Dialer, fast_path, slow_path, create, pin, stamp, unpin, remove, close, positive,
}
use g_rpcat.Proxy.Cache.Pinning.{
  System, SweepPhase, unlocked, locked, loaded, found_old, pin_phase, drop_one, Step, Reach, finds,
  finds_or_dials, fails_to_dial, pins, stamps, unpins, locks, unlocks, loads_in_flight,
  loads_last_used, finds_recent, finds_active, evicts, removes, closes, here, next,
}
use g_rpcat.Proxy.Cache.Pinning.Counting.{count-drop_one}
use g_rpcat.Proxy.Cache.Pinning.Safety.{pinned, IsCounted, Reach-IsCounted}

-- A sweep that has loaded inFlight of an entry finds it in the map, and with no stream on it but those
-- that came since.
abbrev Watched : {g : Grpc} → System g → SweepPhase → Type 0
Watched s unlocked = Unit
Watched s (locked now) = Unit
Watched s (loaded now k i late) = (lookup k s.cache.conns ≡ some i) × (pinned s i ≤ late)
Watched s (found_old now k i late) = (lookup k s.cache.conns ≡ some i) × (pinned s i ≤ late)

none_pinned : (n : ℕ) → positive (pos n) ≡ false → n ≡ 0
unfolding positive
none_pinned n h = ground arith

update-open_conn :
    (i j : ℕ) (f : Entry → Entry) (h : Heap)
    → ((e : Entry) → (f e).open_conn ≡ e.open_conn)
    → (update i f h j).open_conn ≡ (h j).open_conn
unfolding update
update-open_conn i j f h keeps = ground (arith, keeps (h j))

created-open_conn :
    (i j now : ℕ) (h : Heap)
    → (h j).open_conn ≡ true
    → (update i
        (λ _. record { last_used = now; in_flight = pos 0; open_conn = true })
        h
        j).open_conn
      ≡ true
unfolding update
created-open_conn i j now h e = ground arith

closed-open_conn :
    (i j : ℕ) (h : Heap)
    → (h j).open_conn ≡ true
    → (update i close_conn h j).open_conn ≡ false
    → j ≡ i
unfolding update
closed-open_conn i j h e f = ground arith

module _ {g : Grpc} where
  free-Watched : (t : System g) (p : SweepPhase) → p ≡ unlocked → Watched t p
  free-Watched t p l = subst (Watched t) (sym l) tt

  fewer-Watched :
      (s t : System g) (p : SweepPhase)
      → t.cache.conns ≡ s.cache.conns
      → ((i : ℕ) → pinned t i ≤ pinned s i)
      → Watched s p
      → Watched t p
  fewer-Watched s t unlocked e f v = tt
  fewer-Watched s t (locked now) e f v = tt
  fewer-Watched s t (loaded now k i late) e f (found, few) = (rw e found, omega (arith, few, f i))
  fewer-Watched s t (found_old now k i late) e f (found, few) =
      (rw e found, omega (arith, few, f i))

  pinned-Watched :
      (s t : System g) (j : ℕ) (p : SweepPhase)
      → t.cache.conns ≡ s.cache.conns
      → t.holders ≡ j ∷ s.holders
      → t.stamped ≡ s.stamped
      → Watched s p
      → Watched t (pin_phase j p)
  unfolding pin_phase
  pinned-Watched s t j unlocked e h d v = tt
  pinned-Watched s t j (locked now) e h d v = tt
  pinned-Watched s t j (loaded now k i late) e h d (found, few) =
      (rw e found, rw (h, d) (ground (arith, few, count-cons i j s.holders)))
  pinned-Watched s t j (found_old now k i late) e h d (found, few) =
      (rw e found, rw (h, d) (ground (arith, few, count-cons i j s.holders)))

  module _ (new_client : Dialer g) where
    Step-Watched :
        {s t : System g} → Step new_client s t → IsCounted s → Watched s s.sweep → Watched t t.sweep
    unfolding pin stamp unpin
    Step-Watched (finds s now i backend d l e) v w =
        free-Watched (record s { cache = d; handed = i ∷ s.handed }) s.sweep l
    Step-Watched (finds_or_dials s now i backend d l e) v w =
        free-Watched (record s { cache = d; handed = i ∷ s.handed }) s.sweep l
    Step-Watched (fails_to_dial s now n backend d l e) v w =
        free-Watched (record s { cache = d }) s.sweep l
    Step-Watched (pins s i h) v w =
        pinned-Watched s (record s { cache = pin i s.cache; holders = i ∷ s.holders }) i s.sweep
          refl refl refl w
    Step-Watched (stamps s now i h) v w =
        let t : System g = record s {
          cache = stamp now i s.cache;
          holders = drop_one i s.holders;
          stamped = i ∷ s.stamped;
        } in
        fewer-Watched s t s.sweep refl
          (λ j. ground (arith, count-cons j i s.stamped, count-drop_one j i s.holders h)) w
    Step-Watched (unpins s i h) v w =
        let t : System g = record s { cache = unpin i s.cache; stamped = drop_one i s.stamped } in
        fewer-Watched s t s.sweep refl (λ j. ground (arith, count-drop_one j i s.stamped h)) w
    Step-Watched (locks s now l) v w = tt
    Step-Watched (unlocks s now l) v w = tt
    Step-Watched (loads_in_flight s now i k l found none_open) v w =
        let none_there : positive (pos (pinned s i)) ≡ false =
          subst (λ n. positive n ≡ false) (v.counted i) none_open in
        (found, omega (arith, none_pinned (pinned s i) none_there))
    Step-Watched (loads_last_used s now i late k l old) v w = subst (Watched s) l w
    Step-Watched (finds_recent s now i late k l new) v w = tt
    Step-Watched (finds_active s now i late k l) v w = tt
    Step-Watched (evicts s now i late k l) v w = tt
    Step-Watched (removes s backend l) v w =
        free-Watched (record s { cache = remove backend s.cache }) s.sweep l
    Step-Watched (closes s l) v w = free-Watched (record s { cache = close s.cache }) s.sweep l

    Reach-Watched :
        {s t : System g}
        → IsCounted s
        → Watched s s.sweep
        → Reach new_client s t
        → Watched t t.sweep
    Reach-Watched v w here = w
    Reach-Watched v w (next r st) =
        Step-Watched st (Reach-IsCounted new_client v r) (Reach-Watched v w r)

    found-open_conn :
        (now i j : ℕ) (backend : Text) (c d : Cache g)
        → fast_path now backend c ≡ some (i, d)
        → (d.heap j).open_conn ≡ (c.heap j).open_conn
    unfolding fast_path
    found-open_conn now i j backend c d e = elim (Option-cases (lookup backend c.conns)) [
      | inl missed ↦ let e' = rw (missed, fast_path) at e in cc
      | inr (n, found) ↦
          let same_cache : d ≡ record c { heap = update n (touch now) c.heap } = ground arith in
          rw same_cache (update-open_conn n j (touch now) c.heap (λ x. refl))
    ]

    dialled-open_conn :
        (now j : ℕ) (backend : Text) (c : Cache g)
        → (c.heap j).open_conn ≡ true
        → ((slow_path new_client now backend c).1.heap j).open_conn ≡ true
    unfolding slow_path create
    dialled-open_conn now j backend c e = elim (Option-cases (lookup backend c.conns)) [
      | inr (n, found) ↦
          rw (found, slow_path) (update-open_conn n j (touch now) c.heap (λ x. refl) ∙ e)
      | inl missed ↦ elim (Option-cases (new_client backend (dial_options c.config))) [
        | inr (n, failed) ↦ rw (missed, failed, slow_path) e
        | inl dialled ↦
            rw (missed, dialled, slow_path, create) (created-open_conn c.next j now c.heap e)
      ]
    ]

    pinned-open_conn : (i j : ℕ) (c : Cache g) → ((pin i c).heap j).open_conn ≡ (c.heap j).open_conn
    unfolding pin
    pinned-open_conn i j c =
        update-open_conn i j (λ e. record e { in_flight = succ e.in_flight }) c.heap (λ x. refl)

    stamped-open_conn :
        (now i j : ℕ) (c : Cache g) → ((stamp now i c).heap j).open_conn ≡ (c.heap j).open_conn
    unfolding stamp
    stamped-open_conn now i j c = update-open_conn i j (touch now) c.heap (λ x. refl)

    unpinned-open_conn :
        (i j : ℕ) (c : Cache g) → ((unpin i c).heap j).open_conn ≡ (c.heap j).open_conn
    unfolding unpin
    unpinned-open_conn i j c =
        update-open_conn i j (λ e. record e { in_flight = pred e.in_flight }) c.heap (λ x. refl)

    removed-open_conn :
        (k : Text) (i j : ℕ) (c : Cache g)
        → lookup k c.conns ≡ some i
        → (c.heap j).open_conn ≡ true
        → ((remove k c).heap j).open_conn ≡ false
        → j ≡ i
    unfolding remove
    removed-open_conn k i j c found e f = closed-open_conn i j c.heap e (rw (found, remove) at f)

    -- Remove and Close are steps of the callers of the cache.
    abbrev pub IsRemoval : {s t : System g} → Step new_client s t → Type 0
    IsRemoval (removes s backend l) = Unit
    IsRemoval (closes s l) = Unit
    IsRemoval _ = ⊥

    -- Whatever steps, with the loads of sweeps among them, led from a state in order and without a
    -- sweep to this one: a step that closes an open connection is Remove, Close, or the eviction by a
    -- sweep that found the entry old, and then the entry is in the map, and no more streams and
    -- unfinished releases are on it than streams were pinned since that sweep loaded its inFlight.
    pub closes_unpinned :
        (s t u : System g) (i : ℕ)
        → IsCounted s
        → s.sweep ≡ unlocked
        → Reach new_client s t
        → (st : Step new_client t u) → (t.cache.heap i).open_conn ≡ true
        → (u.cache.heap i).open_conn ≡ false
        → IsRemoval st
          ⊎ ((now : ℕ) × (k : Text) × (late : ℕ) × (t.sweep ≡ found_old now k i late)
              × (lookup k t.cache.conns ≡ some i)
              × (pinned t i ≤ late))
    closes_unpinned s t u i v l r st p q =
        by_step st (Reach-Watched v (subst (Watched s) (sym l) tt) r) p q
      where
        by_step :
            {x y : System g} (st : Step new_client x y)
            → Watched x x.sweep
            → (x.cache.heap i).open_conn ≡ true
            → (y.cache.heap i).open_conn ≡ false
            → IsRemoval st
              ⊎ ((now : ℕ) × (k : Text) × (late : ℕ) × (x.sweep ≡ found_old now k i late)
                  × (lookup k x.cache.conns ≡ some i)
                  × (pinned x i ≤ late))
        by_step (finds x now j backend d m e) w p q =
            absurd (let same = found-open_conn now j i backend x.cache d e in cc)
        by_step (finds_or_dials x now j backend d m e) w p q = absurd (
            let stays =
              subst (λ c. (c.1.heap i).open_conn ≡ true) e
                (dialled-open_conn now i backend x.cache p) in
            cc)
        by_step (fails_to_dial x now n backend d m e) w p q = absurd (
            let stays =
              subst (λ c. (c.1.heap i).open_conn ≡ true) e
                (dialled-open_conn now i backend x.cache p) in
            cc)
        by_step (pins x j h) w p q = absurd (let same = pinned-open_conn j i x.cache in cc)
        by_step (stamps x now j h) w p q =
            absurd (let same = stamped-open_conn now j i x.cache in cc)
        by_step (unpins x j h) w p q = absurd (let same = unpinned-open_conn j i x.cache in cc)
        by_step (locks x now m) w p q = absurd cc
        by_step (unlocks x now m) w p q = absurd cc
        by_step (loads_in_flight x now j k m found none_open) w p q = absurd cc
        by_step (loads_last_used x now j late k m old) w p q = absurd cc
        by_step (finds_recent x now j late k m new) w p q = absurd cc
        by_step (finds_active x now j late k m) w p q = absurd cc
        by_step (evicts x now j late k m) w p q =
            let (found, few) = subst (Watched x) m w in
            let same : i ≡ j = removed-open_conn k j i x.cache found p q in
            inr (now, k, late, rw same m, rw same found, rw same few)
        by_step (removes x backend m) w p q = inl tt
        by_step (closes x m) w p q = inl tt
