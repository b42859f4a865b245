-- ===== src/Proxy/Cache/Eviction.antt =====
-- Evicting and closing keep the cache well formed, and what they close.
use g_rpcat.Base.{
  ℕ, ◌<◌, ◌≡◌, refl, ◌⊎◌, inl, inr, Bool, true, false, [], ◌∷◌, none, some, arith, if◌then◌else◌,
  Bool-cases, Option-cases, ==_iff, ap,
}
use g_rpcat.Base.Texts.{Text, same}
use g_rpcat.Base.Dict.{Dict, lookup}
use g_rpcat.Proxy.Config.{Grpc}
use g_rpcat.Proxy.Cache.Entries.{Heap, update, close_conn}
use g_rpcat.Proxy.Cache.{Cache, sweep_idle, close, sweep_from, close_all, stop_sweeper}
use g_rpcat.Proxy.Cache.Sweep.{
  IsInjective, IsOneToOne-IsInjective, IsAbsent-cases, evicts, update_self, update-ne,
  sweep_from_absent, sweep_from_missing, sweep_from_present, sweep_from-IsUnique, lookup-ne-absent,
}
use g_rpcat.Proxy.Cache.Invariant.{IsWellFormed}

close_all_shut :
    (m : Dict ℕ) (h : Heap) (i : ℕ) → (h i).open_conn ≡ false → (close_all m h i).open_conn ≡ false
unfolding close_all
close_all_shut [] h i e = e
close_all_shut ((b, j) ∷ m) h i e =
    close_all_shut m (update j close_conn h) i
      (ground (arith, update_self j close_conn h, update-ne j i close_conn h, ==_iff j i))

close_all_present :
    (m : Dict ℕ) (h : Heap) (k : Text) (i : ℕ)
    → lookup k m ≡ some i
    → (close_all m h i).open_conn ≡ false
unfolding close_all lookup
close_all_present [] h k i e = cc
close_all_present ((b, j) ∷ m) h k i e = elim (Bool-cases (same b k)) [
  | inl hit ↦
      let at_i : j ≡ i = ground arith in
      close_all_shut m (update j close_conn h) i
        (rw (← at_i) (ap (λ x. x.open_conn) (update_self j close_conn h)))
  | inr miss ↦ close_all_present m (update j close_conn h) k i (ground arith)
]

module _ {g : Grpc} where
  -- A key that a sweep leaves was there before, with the same entry, which passed no eviction.
  kept :
      (now : ℕ) (idle : ℕ → Bool) (c : Cache g) (k : Text) (i : ℕ)
      → IsInjective c.conns
      → lookup k (sweep_from now c.config.idle_timeout idle c.conns c.heap).0 ≡ some i
      → (lookup k c.conns ≡ some i) × (evicts now c.config.idle_timeout idle c.heap i ≡ false)
  kept now idle c k i inj e = elim (Option-cases (lookup k c.conns)) [
    | inl missed ↦
        let gone = sweep_from_missing now c.config.idle_timeout idle c.conns c.heap k missed in cc
    | inr (j, found) ↦
        let here = sweep_from_present now c.config.idle_timeout idle c.conns c.heap k j inj found in
        ground (arith, here.0)
  ]

  pub sweep_idle-IsWellFormed :
      (now : ℕ) (idle : ℕ → Bool) (c : Cache g)
      → IsWellFormed c
      → IsWellFormed (sweep_idle now idle c)
  unfolding sweep_idle
  sweep_idle-IsWellFormed now idle c w =
      let t = c.config.idle_timeout in
      let inj = IsOneToOne-IsInjective c.conns w.unique w.one_to_one in
      record {
        unique = sweep_from-IsUnique now t idle c.conns c.heap w.unique;
        one_to_one = λ j k i e f.
            w.one_to_one j k i (kept now idle c j i inj e).0 (kept now idle c k i inj f).0;
        live = λ k i e.
            let (before, stays) = kept now idle c k i inj e in
            let (made, is_open) = w.live k i before in
            let here = sweep_from_present now t idle c.conns c.heap k i inj before in
            (made, ground (arith, here.1));
        no_leak = λ i h e. elim (IsAbsent-cases i c.conns w.unique) [
          | inl absent ↦
              let (k, found) =
                w.no_leak i h
                  (ground (arith, sweep_from_absent now t idle c.conns c.heap i absent)) in
              absurd (lookup-ne-absent k i i c.conns absent found refl)
          | inr (k, found) ↦
              let here = sweep_from_present now t idle c.conns c.heap k i inj found in
              (k, ground (arith, here))
        ];
      }

  -- The map and the heap behind a sweep of a well-formed cache, for each key of the map: the key is
  -- dropped and its connection closed if the checks pass, and both stay as they are if not.
  pub sweep_idle_lem :
      (now : ℕ) (idle : ℕ → Bool) (c : Cache g) (k : Text) (i : ℕ)
      → IsWellFormed c
      → lookup k c.conns ≡ some i
      → let go = evicts now c.config.idle_timeout idle c.heap i in
        (lookup k (sweep_idle now idle c).conns ≡ (if go then none else some i))
        × ((sweep_idle now idle c).heap i ≡ (if go then close_conn (c.heap i) else c.heap i))
  unfolding sweep_idle
  sweep_idle_lem now idle c k i w e =
      sweep_from_present now c.config.idle_timeout idle c.conns c.heap k i
        (IsOneToOne-IsInjective c.conns w.unique w.one_to_one) e

  pub stop_sweeper-same :
      (c : Cache g)
      → ((stop_sweeper c).conns ≡ c.conns)
        × ((stop_sweeper c).heap ≡ c.heap)
        × ((stop_sweeper c).next ≡ c.next)
        × ((stop_sweeper c).stopped ≡ true)
  unfolding stop_sweeper
  stop_sweeper-same c = elim (Bool-cases c.stopped) [
    | inl done ↦ rw (done, stop_sweeper) (refl, refl, refl, refl)
    | inr first ↦ rw (first, stop_sweeper) (refl, refl, refl, refl)
  ]

  -- Close of a well-formed cache leaves no connection open that the cache ever made and no entry in
  -- the map, and it marks the sweeper as stopped.
  close_shuts_all :
      (c : Cache g) (i : ℕ)
      → IsWellFormed c
      → i < c.next
      → (((close c).heap i).open_conn ≡ false) × ((close c).conns ≡ []) × ((close c).stopped ≡ true)
  unfolding close
  close_shuts_all c i w h =
      let (same_conns, same_heap, same_next, marked) = stop_sweeper-same c in
      (rw (same_conns, same_heap) (shut (Bool-cases (c.heap i).open_conn)), refl, marked)
    where
      shut :
          ((c.heap i).open_conn ≡ true) ⊎ ((c.heap i).open_conn ≡ false)
          → (close_all c.conns c.heap i).open_conn ≡ false
      shut (inl is_open) =
          let (k, found) = w.no_leak i h is_open in close_all_present c.conns c.heap k i found
      shut (inr is_shut) = close_all_shut c.conns c.heap i is_shut

  pub close-IsWellFormed : (c : Cache g) → IsWellFormed c → IsWellFormed (close c)
  unfolding close lookup
  close-IsWellFormed c w = record {
    unique = tt;
    one_to_one = λ j k i e f. cc;
    live = λ k i e. cc;
    no_leak = λ i h e.
        let made : i < c.next = omega (arith, (stop_sweeper-same c).2) in
        let shut = (close_shuts_all c i w made).0 in cc;
  }
