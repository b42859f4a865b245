-- ===== src/Proxy/Cache/Racing/Tests.antt =====
-- A stream opens, ends and is swept.
use g_rpcat.Base.{refl, true, [], ◌∷◌, All, arith, ◌≡◌, false}
use g_rpcat.Base.Int.{pos}
use g_rpcat.Proxy.Cache.Racing.{
  Race, new_race, sweep_on, pins, calls_release, stamps, unpins, sweeps, waits, Reach, here, next,
  evicted, reads_clock, enters, hands_out,
}
use g_rpcat.Proxy.Cache.Racing.Invariant.{Before, Stalled}
use g_rpcat.Proxy.Cache.Racing.Idle.{evicted_only_idle}

-- Handed out at 5, released at 7 and swept at 20, with a timeout of 10.
swept : (s : Race) × Reach (pos 10) (new_race 5 5) s
unfolding sweep_on
swept = (
  _,
  next
      (next
        (next
          (next
            (next
              (next
                (next
                  (next
                    (next (next (next here (pins 0 5 refl)) (waits 7 (omega arith)))
                      (calls_release 0 (5, 5) refl))
                    (reads_clock 0 7 refl))
                  (stamps 0 (7, 7) refl))
                (unpins 0 7 refl))
              (waits 20 (omega arith)))
            (sweeps 20 true (omega arith)))
          (sweeps 20 true (omega arith)))
        (sweeps 20 true (omega arith)))
      (sweeps 20 true (omega arith)),
)

evicted_only_idle_example : All (Before 10 20) (7 ∷ []) × All (Stalled 10 0) swept.0.opened
unfolding swept sweep_on
evicted_only_idle_example = evicted_only_idle 10 5 5 20 (7 ∷ []) swept.0 swept.1 refl

-- A caller that takes fifteen from getEntry to its increment gets a closed connection.
late :
    (s : Race) × (Reach (pos 10) (new_race 5 5) s)
    × (s.opened ≡ (5, 20) ∷ [])
    × (s.entry.open_conn ≡ false)
unfolding sweep_on
late = (
  _,
  next
      (next
        (next
          (next (next (next here (waits 20 (omega arith))) (sweeps 20 true (omega arith)))
            (sweeps 20 true (omega arith)))
          (sweeps 20 true (omega arith)))
        (sweeps 20 true (omega arith)))
      (pins 0 5 refl),
  refl,
  refl,
)

-- A release that ended at 100 is evicted at 101 with a timeout of 50, since another one, which had
-- read the clock at 10, stores its reading behind it.
stale :
    (s : Race) × (Reach (pos 50) (new_race 10 10) s)
    × (s.sweep ≡ evicted 101 (100 ∷ 10 ∷ []))
    × (s.slack ≡ 90)
unfolding sweep_on
stale = (
  _,
  next
      (next
        (next
          (next
            (next
              (next
                (next
                  (next
                    (next
                      (next
                        (next
                          (next
                            (next
                              (next
                                (next
                                  (next (next (next here (pins 0 10 refl)) (enters refl))
                                    (hands_out 0 10 refl))
                                  (pins 0 10 refl))
                                (calls_release 0 (10, 10) refl))
                              (reads_clock 0 10 refl))
                            (waits 100 (omega arith)))
                          (calls_release 0 (10, 10) refl))
                        (reads_clock 0 100 refl))
                      (stamps 0 (100, 100) refl))
                    (stamps 0 (10, 10) refl))
                  (unpins 0 10 refl))
                (unpins 0 100 refl))
              (waits 101 (omega arith)))
            (sweeps 101 true (omega arith)))
          (sweeps 101 true (omega arith)))
        (sweeps 101 true (omega arith)))
      (sweeps 101 true (omega arith)),
  refl,
  refl,
)
