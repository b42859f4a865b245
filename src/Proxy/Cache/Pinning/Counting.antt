-- ===== src/Proxy/Cache/Pinning/Counting.antt =====
-- Counting pointers, and the operations of the cache that change no inFlight.
use g_rpcat.Base.Counts.{count}
use g_rpcat.Base.{
  ℕ, suc, ◌<◌, ◌≡◌, refl, inl, inr, Bool, List, [], ◌∷◌, arith, ◌==◌, if◌then◌else◌, Option-cases,
}
use g_rpcat.Base.Int.{ℤ}
use g_rpcat.Base.Texts.{Text}
use g_rpcat.Base.Dict.{Dict, lookup}
use g_rpcat.Proxy.Config.{Grpc}
use g_rpcat.Proxy.Cache.Entries.{Entry, Heap, update, close_conn}
use g_rpcat.Proxy.Cache.{Cache, close, remove, sweep_from, close_all}
use g_rpcat.Proxy.Cache.Eviction.{stop_sweeper-same}
use g_rpcat.Proxy.Cache.Pinning.{drop_one}

pub count-drop_one :
    (i j : ℕ) (xs : List ℕ)
    → 0 < count j xs
    → count i xs ≡ (if i == j then suc (count i (drop_one j xs)) else count i (drop_one j xs))
unfolding count drop_one
count-drop_one i j [] h = absurd (omega arith)
count-drop_one i j (k ∷ xs) h = ground (arith, count-drop_one i j xs)

-- Closing connections changes no count.
pub update-in_flight :
    (i j : ℕ) (f : Entry → Entry) (h : Heap)
    → (update i f h j).in_flight ≡ (if i == j then (f (h j)).in_flight else (h j).in_flight)
unfolding update
update-in_flight i j f h = ground arith

pub sweep_from-in_flight :
    (now : ℕ) (timeout : ℤ) (idle : ℕ → Bool) (m : Dict ℕ) (h : Heap) (i : ℕ)
    → ((sweep_from now timeout idle m h).1 i).in_flight ≡ (h i).in_flight
unfolding sweep_from
sweep_from-in_flight now timeout idle [] h i = refl
sweep_from-in_flight now timeout idle ((b, j) ∷ m) h i = ground (
  arith,
  sweep_from-in_flight now timeout idle m h i,
  sweep_from-in_flight now timeout idle m (update j close_conn h) i,
  update-in_flight j i close_conn h,
)

close_all-in_flight :
    (m : Dict ℕ) (h : Heap) (i : ℕ) → (close_all m h i).in_flight ≡ (h i).in_flight
unfolding close_all
close_all-in_flight [] h i = refl
close_all-in_flight ((b, j) ∷ m) h i =
    ground
      (arith, close_all-in_flight m (update j close_conn h) i, update-in_flight j i close_conn h)

module _ {g : Grpc} where
  pub remove-in_flight :
      (backend : Text) (c : Cache g) (i : ℕ)
      → ((remove backend c).heap i).in_flight ≡ (c.heap i).in_flight
  unfolding remove
  remove-in_flight backend c i = elim (Option-cases (lookup backend c.conns)) [
    | inl missed ↦ rw (missed, remove) refl
    | inr (j, found) ↦ rw (found, remove) (ground (arith, update-in_flight j i close_conn c.heap))
  ]

  pub remove-next : (backend : Text) (c : Cache g) → (remove backend c).next ≡ c.next
  unfolding remove
  remove-next backend c = ground arith

  pub close-in_flight : (c : Cache g) (i : ℕ) → ((close c).heap i).in_flight ≡ (c.heap i).in_flight
  unfolding close
  close-in_flight c i =
      let (same_conns, same_heap, same_next, marked) = stop_sweeper-same c in
      rw (same_conns, same_heap) (close_all-in_flight c.conns c.heap i)
