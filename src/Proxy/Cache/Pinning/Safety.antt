-- ===== src/Proxy/Cache/Pinning/Safety.antt =====
-- inFlight counts the open streams exactly.
use g_rpcat.Base.Counts.{count, count-cons}
use g_rpcat.Base.{
  ℕ, ◌+◌, ◌≤◌, ◌<◌, ◌≡◌, refl, ◌∙◌, inl, inr, Bool, true, ◌∷◌, some, ok, err, arith, Option-cases,
  subst,
}
use g_rpcat.Base.Int.{pos, succ, pred}
use g_rpcat.Base.Texts.{Text}
use g_rpcat.Base.Dict.{lookup}
use g_rpcat.Proxy.Config.{Grpc}
use g_rpcat.Proxy.Cache.Entries.{update, touch}
use g_rpcat.Proxy.Cache.{
  Cache, Dialer, fast_path, slow_path, create, pin, stamp, unpin, sweep_idle, close, remove,
  dial_options,
}
use g_rpcat.Proxy.Cache.Invariant.{
  IsWellFormed, fast_path-IsWellFormed, slow_path-IsWellFormed, pin-IsWellFormed,
  stamp-IsWellFormed, unpin-IsWellFormed, remove-IsWellFormed,
}
use g_rpcat.Proxy.Cache.Eviction.{sweep_idle-IsWellFormed, close-IsWellFormed, stop_sweeper-same}
use g_rpcat.Proxy.Cache.Pinning.{
  System, SweepPhase, unlocked, locked, Step, Reach, finds, finds_or_dials, fails_to_dial, pins,
  stamps, unpins, locks, unlocks, loads_in_flight, loads_last_used, finds_recent, finds_active,
  evicts, removes, closes, here, next,
}
use g_rpcat.Proxy.Cache.Pinning.Counting.{
  count-drop_one, update-in_flight, sweep_from-in_flight, remove-in_flight, remove-next,
  close-in_flight,
}

-- How many streams and unfinished releases there are on an entry.
abbrev pub pinned : {g : Grpc} → System g → ℕ → ℕ
pinned s i = count i s.holders + count i s.stamped

pub record IsCounted {g : Grpc} (s : System g) : Type 0 where
  pub well_formed : IsWellFormed s.cache
  pub made : (i : ℕ) → 0 < count i s.handed → i < s.cache.next
  pub unmade : (i : ℕ) → s.cache.next ≤ i → pinned s i ≡ 0
  pub counted : (i : ℕ) → (s.cache.heap i).in_flight ≡ pos (pinned s i)

module _ {g : Grpc} where
  -- A step of the cache that counts nothing.
  quiet :
      (s : System g) (d : Cache g)
      → IsCounted s
      → IsWellFormed d
      → d.next ≡ s.cache.next
      → ((i : ℕ) → (d.heap i).in_flight ≡ (s.cache.heap i).in_flight)
      → IsCounted (record s { cache = d })
  quiet s d v w same_next same_count = record {
    well_formed = w;
    made = λ i h. omega (arith, v.made i h, same_next);
    unmade = λ i h. v.unmade i (omega (arith, same_next));
    counted = λ i. same_count i ∙ v.counted i;
  }

  -- The counts do not depend on where a sweep is.
  pub phase-IsCounted :
      (s : System g) (p : SweepPhase) → IsCounted s → IsCounted (record s { sweep = p })
  phase-IsCounted s p v = record {
    well_formed = v.well_formed;
    made = v.made;
    unmade = v.unmade;
    counted = v.counted;
  }

  removed-IsCounted :
      (s : System g) (backend : Text)
      → IsCounted s
      → IsCounted (record s { cache = remove backend s.cache })
  removed-IsCounted s backend v =
      quiet s _ v (remove-IsWellFormed backend s.cache v.well_formed) (remove-next backend s.cache)
        (remove-in_flight backend s.cache)

  pub closed-IsCounted :
      (s : System g) → IsCounted s → IsCounted (record s { cache = close s.cache })
  unfolding close
  closed-IsCounted s v =
      quiet s _ v (close-IsWellFormed s.cache v.well_formed) (stop_sweeper-same s.cache).2
        (close-in_flight s.cache)

  -- A whole sweep changes no count either.
  pub swept-IsCounted :
      (s : System g) (now : ℕ) (idle : ℕ → Bool)
      → IsCounted s
      → IsCounted (record s { cache = sweep_idle now idle s.cache })
  unfolding sweep_idle
  swept-IsCounted s now idle v =
      quiet s _ v (sweep_idle-IsWellFormed now idle s.cache v.well_formed) refl
        (sweep_from-in_flight now s.cache.config.idle_timeout idle s.cache.conns s.cache.heap)

  handing :
      (s : System g) (d : Cache g) (i : ℕ)
      → IsCounted (record s { cache = d })
      → i < d.next
      → IsCounted (record s { cache = d; handed = i ∷ s.handed })
  handing s d i v lt = record {
    well_formed = v.well_formed;
    made = λ j h. ground (arith, count-cons j i s.handed, v.made j);
    unmade = v.unmade;
    counted = v.counted;
  }

  touched-IsCounted :
      (s : System g) (now i : ℕ) (backend : Text)
      → IsCounted s
      → lookup backend s.cache.conns ≡ some i
      → IsWellFormed (record s.cache { heap = update i (touch now) s.cache.heap })
      → IsCounted (record s {
        cache = record s.cache { heap = update i (touch now) s.cache.heap };
        handed = i ∷ s.handed;
      })
  touched-IsCounted s now i backend v found w =
      handing s _ i
        (quiet s _ v w refl (λ j. ground (arith, update-in_flight i j (touch now) s.cache.heap)))
        (v.well_formed.live backend i found).0

  finds-IsCounted :
      (s : System g) (now i : ℕ) (backend : Text) (d : Cache g)
      → fast_path now backend s.cache ≡ some (i, d)
      → IsCounted s
      → IsCounted (record s { cache = d; handed = i ∷ s.handed })
  unfolding fast_path
  finds-IsCounted s now i backend d e v = elim (Option-cases (lookup backend s.cache.conns)) [
    | inl missed ↦ let e' = rw (missed, fast_path) at e in cc
    | inr (j, found) ↦
        let same_i : i ≡ j = ground arith in
        let same_cache : d ≡ record s.cache { heap = update j (touch now) s.cache.heap } =
          ground arith in
        rw (same_i, same_cache)
          (touched-IsCounted s now j backend v found (
            subst IsWellFormed same_cache
              (fast_path-IsWellFormed now i backend s.cache d e v.well_formed)))
  ]

  created-IsCounted :
      (s : System g) (now : ℕ) (backend : Text)
      → IsCounted s
      → IsWellFormed (create now backend s.cache)
      → IsCounted
          (record s { cache = create now backend s.cache; handed = s.cache.next ∷ s.handed })
  unfolding create
  created-IsCounted s now backend v w =
      handing s (create now backend s.cache) s.cache.next
        (record {
          well_formed = w;
          made = λ i h. omega (arith, v.made i h);
          unmade = λ i h. v.unmade i (omega arith);
          counted = λ i. ground (
            arith,
            update-in_flight s.cache.next i
                (λ _. record { last_used = now; in_flight = pos 0; open_conn = true }) s.cache.heap,
            v.counted i,
            v.unmade i,
          );
        })
        (omega arith)

  module _ (new_client : Dialer g) where
    slow_path-IsCounted :
        (s : System g) (now i : ℕ) (backend : Text) (d : Cache g)
        → slow_path new_client now backend s.cache ≡ (ok i, d)
        → IsCounted s
        → IsCounted (record s { cache = d; handed = i ∷ s.handed })
    unfolding slow_path
    slow_path-IsCounted s now i backend d e v =
        let w : IsWellFormed d =
          subst (λ r. IsWellFormed r.1) e
            (slow_path-IsWellFormed new_client now backend s.cache v.well_formed) in
        elim (Option-cases (lookup backend s.cache.conns)) [
          | inr (j, found) ↦
              let e' = rw (found, slow_path) at e in
              let same_i : i ≡ j = cc in
              let same_cache : d ≡ record s.cache { heap = update j (touch now) s.cache.heap } =
                cc in
              rw (same_i, same_cache)
                (touched-IsCounted s now j backend v found (subst IsWellFormed same_cache w))
          | inl missed ↦ elim (Option-cases (new_client backend (dial_options s.cache.config))) [
            | inr (n, failed) ↦ let e' = rw (missed, failed, slow_path) at e in cc
            | inl dialled ↦
                let e' = rw (missed, dialled, slow_path) at e in
                let same_i : i ≡ s.cache.next = cc in
                let same_cache : d ≡ create now backend s.cache = cc in
                rw (same_i, same_cache)
                  (created-IsCounted s now backend v (subst IsWellFormed same_cache w))
          ]
        ]

    failed-same :
        (s : System g) (now n : ℕ) (backend : Text) (d : Cache g)
        → slow_path new_client now backend s.cache ≡ (err n, d)
        → d ≡ s.cache
    unfolding slow_path
    failed-same s now n backend d e = ground arith

    pub Step-IsCounted : {s t : System g} → Step new_client s t → IsCounted s → IsCounted t
    unfolding pin stamp unpin
    Step-IsCounted (finds s now i backend d l e) v = finds-IsCounted s now i backend d e v
    Step-IsCounted (finds_or_dials s now i backend d l e) v =
        slow_path-IsCounted s now i backend d e v
    Step-IsCounted (fails_to_dial s now n backend d l e) v = rw (failed-same s now n backend d e) v
    Step-IsCounted (pins s i h) v = record {
      well_formed = pin-IsWellFormed i s.cache v.well_formed;
      made = v.made;
      unmade = λ j le. ground (arith, count-cons j i s.holders, v.unmade j, v.made i);
      counted = λ j. ground (
        arith,
        count-cons j i s.holders,
        v.counted j,
        update-in_flight i j (λ e. record e { in_flight = succ e.in_flight }) s.cache.heap,
      );
    }
    Step-IsCounted (stamps s now i h) v = record {
      well_formed = stamp-IsWellFormed now i s.cache v.well_formed;
      made = v.made;
      unmade = λ j le.
          ground (arith, count-cons j i s.stamped, count-drop_one j i s.holders h, v.unmade j);
      counted = λ j. ground (
        arith,
        count-cons j i s.stamped,
        count-drop_one j i s.holders h,
        v.counted j,
        update-in_flight i j (touch now) s.cache.heap,
      );
    }
    Step-IsCounted (unpins s i h) v = record {
      well_formed = unpin-IsWellFormed i s.cache v.well_formed;
      made = v.made;
      unmade = λ j le. ground (arith, count-drop_one j i s.stamped h, v.unmade j);
      counted = λ j. ground (
        arith,
        count-drop_one j i s.stamped h,
        v.counted j,
        update-in_flight i j (λ e. record e { in_flight = pred e.in_flight }) s.cache.heap,
      );
    }
    Step-IsCounted (locks s now l) v = phase-IsCounted s (locked now) v
    Step-IsCounted (unlocks s now l) v = phase-IsCounted s unlocked v
    Step-IsCounted (loads_in_flight s now i k l found none_open) v = phase-IsCounted s _ v
    Step-IsCounted (loads_last_used s now i late k l old) v = phase-IsCounted s _ v
    Step-IsCounted (finds_recent s now i late k l new) v = phase-IsCounted s _ v
    Step-IsCounted (finds_active s now i late k l) v = phase-IsCounted s _ v
    Step-IsCounted (evicts s now i late k l) v =
        phase-IsCounted (record s { cache = remove k s.cache }) (locked now)
          (removed-IsCounted s k v)
    Step-IsCounted (removes s backend l) v = removed-IsCounted s backend v
    Step-IsCounted (closes s l) v = closed-IsCounted s v

    -- Any steps, in any order, from a state in order lead to one in order: inFlight of each entry is
    -- the number of streams and unfinished releases on it, each map entry is open, and each open
    -- connection is in the map.
    pub Reach-IsCounted : {s t : System g} → IsCounted s → Reach new_client s t → IsCounted t
    Reach-IsCounted v here = v
    Reach-IsCounted v (next r st) = Step-IsCounted st (Reach-IsCounted v r)
