-- ===== src/Proxy/Cache/Backends/Refinement.antt =====
-- The cache does what the map of backends does.
use g_rpcat.Base.{
  ℕ, ◌≡◌, refl, ap, ◌∙◌, inl, inr, Bool, List, [], ◌∷◌, Option, none, some, Outcome, ok, err, panic,
  arith, ==_iff, Option-cases, Bool-cases, ◌+◌,
}
use g_rpcat.Base.Texts.{Text, same_iff}
use g_rpcat.Base.Dict.{lookup, lookup-insert, lookup-erase}
use g_rpcat.Proxy.Config.{Grpc}
use g_rpcat.Proxy.Cache.Entries.{Entry, update, touch, close_conn}
use g_rpcat.Proxy.Cache.Sweep.{update_self, update-ne, sweep_from_missing}
use g_rpcat.Proxy.Cache.Lookup.{slow_path_refused, slow_path_dialled, get_entry_missed}
use g_rpcat.Proxy.Cache.Dialing.{dial_options}
use g_rpcat.Proxy.Cache.Eviction.{sweep_idle_lem, sweep_idle-IsWellFormed, close-IsWellFormed}
use g_rpcat.Proxy.Cache.Invariant.{
  IsWellFormed, get_entry-IsWellFormed, acquire-IsWellFormed, unpin-IsWellFormed,
  stamp-IsWellFormed, remove-IsWellFormed,
}
use g_rpcat.Proxy.Cache.{
  Cache, Dialer, get_entry, acquire, release, sweep_idle, remove, close, Heap, create, fast_path,
  pin_found, stamp, stop_sweeper, pin, pred, unpin,
}
use g_rpcat.Proxy.Cache.Backends.{
  Backends, Use, gets, acquires, releases, sweeps, removes, closes, use_backends, use_cache,
  use_all, view, seen, put, change, changed, got, fresh, Finding, swept, pinned, released,
  counted_up, answered,
}

-- Two maps are the same if they find the same.
pub same_find :
    {g : Grpc} (b : Backends g) (f : Text → Finding)
    → ((k : Text) → b.find k ≡ f k)
    → b ≡ record b { find = f }
same_find b f h = ap (λ find. record b { find = find }) (λ i k. h k i)

-- A change to an entry, whoever holds it, is the change to the connection with its number.
seen-update :
    (i : ℕ) (f : Entry → Entry) (h : Heap) (o : Option ℕ)
    → seen (update i f h) o ≡ changed i f (seen h o)
unfolding update
seen-update i f h none = refl
seen-update i f h (some j) = refl

changed-twice :
    (now i : ℕ) (o : Finding)
    → changed i (λ e. record e { in_flight = pred e.in_flight }) (changed i (touch now) o)
      ≡ changed i (released now) o
changed-twice now i none = refl
changed-twice now i (some (j, e)) = ground arith

module _ {g : Grpc} where
  pub view-update :
      (i : ℕ) (f : Entry → Entry) (c : Cache g)
      → view (record c { heap = update i f c.heap }) ≡ change i f (view c)
  view-update i f c = same_find _ _ (λ k. seen-update i f c.heap (lookup k c.conns))

  -- On a well-formed cache it is a change to the backend.
  pub seen-put :
      (i : ℕ) (k : Text) (f : Entry → Entry) (c : Cache g)
      → IsWellFormed c
      → lookup k c.conns ≡ some i
      → (j : Text)
      → changed i f (seen c.heap (lookup j c.conns))
        ≡ put k (some (i, f (c.heap i))) (λ b. seen c.heap (lookup b c.conns)) j
  seen-put i k f c w e j = elim (Option-cases (lookup j c.conns)) [
    | inl missed ↦ ground (arith, same_iff k j)
    | inr (n, found) ↦ ground (arith, same_iff k j, w.one_to_one k j i, ==_iff i n)
  ]

  abbrev seen_through : Outcome ℕ ℕ × Cache g → Outcome ℕ ℕ × Backends g
  seen_through (r, c) = (r, view c)

  pub create-view :
      (now : ℕ) (k : Text) (c : Cache g)
      → IsWellFormed c
      → view (create now k c) ≡ record (view c) {
        find = put k (some (c.next, fresh now)) (view c).find;
        made = c.next + 1;
      }
  unfolding create
  create-view now k c w = same_find _ _ (λ j. elim (Option-cases (lookup j c.conns)) [
    | inl missed ↦
        ground (arith, lookup-insert k j c.next c.conns, update_self c.next (λ _. fresh now) c.heap)
    | inr (n, found) ↦ ground (
      arith,
      lookup-insert k j c.next c.conns,
      w.live j n found,
      update_self c.next (λ _. fresh now) c.heap,
      update-ne c.next n (λ _. fresh now) c.heap,
    )
  ])

  get_entry-view :
      (dial : Dialer g) (now later : ℕ) (k : Text) (c : Cache g)
      → IsWellFormed c
      → seen_through (get_entry dial now later k c)
        ≡ got dial now later k (view c) ((view c).find k)
  unfolding get_entry fast_path
  get_entry-view dial now later k c w = elim (Option-cases (lookup k c.conns)) [
    | inr (i, found) ↦
        rw (found, get_entry)
          (ap (λ b. (ok i, b))
            (view-update i (touch now) c ∙ same_find _ _ (seen-put i k (touch now) c w found)))
    | inl missed ↦
        let e = get_entry_missed dial now later k c missed in
        elim (Option-cases (dial k (dial_options c.config))) [
          | inr (n, failed) ↦
              rw (e, slow_path_refused dial later n k c missed failed, missed, failed) refl
          | inl made ↦
              rw (e, slow_path_dialled dial later k c missed made, missed, made)
                (ap (λ b. (ok c.next, b)) (create-view later k c w))
        ]
  ]

  pinned-view :
      (r : Outcome ℕ ℕ) (c : Cache g) → seen_through (pin_found (r, c)) ≡ pinned (r, view c)
  unfolding pin_found pin
  pinned-view (ok i) c = ap (λ b. (ok i, b)) (view-update i counted_up c)
  pinned-view (err e) c = refl
  pinned-view panic c = refl

  release-view :
      (now i : ℕ) (c : Cache g) → view (release now i c) ≡ change i (released now) (view c)
  unfolding release stamp unpin
  release-view now i c = same_find _ _ (λ k. ground (
    arith,
    seen-update i (λ e. record e { in_flight = pred e.in_flight }) (update i (touch now) c.heap)
        (lookup k c.conns),
    seen-update i (touch now) c.heap (lookup k c.conns),
    changed-twice now i (seen c.heap (lookup k c.conns)),
  ))

  pub sweep_idle-view :
      (now : ℕ) (idle : ℕ → Bool) (c : Cache g)
      → IsWellFormed c
      → view (sweep_idle now idle c)
        ≡ record (view c) { find = λ k. swept now idle (view c) ((view c).find k) }
  unfolding sweep_idle
  sweep_idle-view now idle c w = same_find _ _ (λ k. elim (Option-cases (lookup k c.conns)) [
    | inl missed ↦
        ground (arith, sweep_from_missing now c.config.idle_timeout idle c.conns c.heap k missed)
    | inr (i, found) ↦ ground (arith, sweep_idle_lem now idle c k i w found)
  ])

  pub remove-view :
      (k : Text) (c : Cache g)
      → IsWellFormed c
      → view (remove k c) ≡ record (view c) { find = put k none (view c).find }
  unfolding remove
  remove-view k c w = elim (Option-cases (lookup k c.conns)) [
    | inl missed ↦ rw (missed, remove) (same_find _ _ (λ j. ground (arith, same_iff k j)))
    | inr (i, found) ↦
        rw (found, remove)
          (same_find _ _ (λ j. elim (Option-cases (lookup j c.conns)) [
            | inl none_there ↦ ground (arith, lookup-erase k j c.conns w.unique)
            | inr (n, there) ↦ ground (
              arith,
              lookup-erase k j c.conns w.unique,
              same_iff k j,
              w.one_to_one k j i,
              update-ne i n close_conn c.heap,
            )
          ]))
  ]

  pub close-view : (c : Cache g) → view (close c) ≡ record (view c) { find = λ k. none }
  unfolding close stop_sweeper lookup
  close-view c = elim (Bool-cases c.stopped) [
    | inl done ↦ rw (done, stop_sweeper) refl
    | inr first ↦ rw (first, stop_sweeper) refl
  ]

  use_cache-IsWellFormed :
      (dial : Dialer g) (u : Use) (c : Cache g)
      → IsWellFormed c
      → IsWellFormed (use_cache dial u c).1
  unfolding use_cache release
  use_cache-IsWellFormed dial (gets now later k) c w = get_entry-IsWellFormed dial now later k c w
  use_cache-IsWellFormed dial (acquires now later k) c w = acquire-IsWellFormed dial now later k c w
  use_cache-IsWellFormed dial (releases now i) c w =
      unpin-IsWellFormed i (stamp now i c) (stamp-IsWellFormed now i c w)
  use_cache-IsWellFormed dial (sweeps now idle) c w = sweep_idle-IsWellFormed now idle c w
  use_cache-IsWellFormed dial (removes k) c w = remove-IsWellFormed k c w
  use_cache-IsWellFormed dial closes c w = close-IsWellFormed c w

  use_cache-view :
      (dial : Dialer g) (u : Use) (c : Cache g)
      → IsWellFormed c
      → ((use_cache dial u c).0, view (use_cache dial u c).1) ≡ use_backends dial u (view c)
  unfolding use_cache use_backends acquire
  use_cache-view dial (gets now later k) c w = ap answered (get_entry-view dial now later k c w)
  use_cache-view dial (acquires now later k) c w =
      let (r, d) = get_entry dial now later k c in
      ap answered (pinned-view r d ∙ ap pinned (get_entry-view dial now later k c w))
  use_cache-view dial (releases now i) c w = ap (λ b. (none, b)) (release-view now i c)
  use_cache-view dial (sweeps now idle) c w = ap (λ b. (none, b)) (sweep_idle-view now idle c w)
  use_cache-view dial (removes k) c w = ap (λ b. (none, b)) (remove-view k c w)
  use_cache-view dial closes c w = ap (λ b. (none, b)) (close-view c)

  -- Any sequence of lookups, releases, sweeps, removals and closes, on a well-formed cache: every
  -- call answers as the map of backends does, and the cache ends as a map that finds the same.
  pub use_all-view :
      (dial : Dialer g) (us : List Use) (c : Cache g)
      → IsWellFormed c
      → let (rs, d) = use_all (use_cache dial) us c in
        (rs, view d) ≡ use_all (use_backends dial) us (view c)
  unfolding use_all
  use_all-view dial [] c w = refl
  use_all-view dial (u ∷ us) c w =
      let (r, d) = use_cache dial u c in
      ap (λ t. (r ∷ t.0, t.1)) (use_all-view dial us d (use_cache-IsWellFormed dial u c w))
      ∙ ap (λ t. let (rs, v) = use_all (use_backends dial) us t.1 in (t.0 ∷ rs, v))
          (use_cache-view dial u c w)
