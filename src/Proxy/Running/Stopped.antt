-- ===== src/Proxy/Running/Stopped.antt =====
-- What a server that was stopped leaves behind.
use g_rpcat.Base.Counts.{count}
use g_rpcat.Base.{
  ℕ, ◌+◌, ◌<◌, ◌≡◌, refl, ◌∙◌, inl, inr, true, false, [], ◌∷◌, List, Option, ok, some, none, arith,
  length, ap, Bool-cases, ◌⊎◌,
}
use g_rpcat.Base.Int.{pos}
use g_rpcat.Base.Dict.{lookup}
use g_rpcat.Base.Texts.{Text}
use g_rpcat.Proxy.Config.{Grpc, Config}
use g_rpcat.Proxy.Cache.{Cache, Dialer, start_sweeper, new_connection_cache}
use g_rpcat.Proxy.Cache.Pinning.{unlocked}
use g_rpcat.Proxy.Cache.Pinning.Safety.{IsCounted}
use g_rpcat.Proxy.Server.{Server, new_server}
use g_rpcat.Proxy.Lifecycle.{new_life, complete}
use g_rpcat.Proxy.Lifecycle.Ordering.{new_life-IsOrdered}
use g_rpcat.Proxy.Running.Invariant.{IsRunning, Reach-IsRunning, Reach-still}
use g_rpcat.Proxy.Running.{Running, cache_of, new_running, Reach}

uncounted : (xs ys : List ℕ) (i : ℕ) → length xs + length ys ≡ 0 → count i xs + count i ys ≡ 0
unfolding count
uncounted [] [] i e = refl
uncounted (x ∷ xs) ys i e = absurd (omega arith)
uncounted [] (y ∷ ys) i e = absurd (omega arith)

module _ {g : Grpc} where
  empty-IsCounted :
      (c : Cache g)
      → c.conns ≡ []
      → c.next ≡ 0
      → ((i : ℕ) → (c.heap i).in_flight ≡ pos 0)
      → IsCounted (record { cache = c; handed = []; holders = []; stamped = []; sweep = unlocked })
  unfolding lookup count
  empty-IsCounted c e n h = record {
    well_formed = record {
      unique = rw e tt;
      one_to_one = λ j k i p q. absurd (nothing j p);
      live = λ k i p. absurd (nothing k p);
      no_leak = λ i lt p. absurd (omega arith);
    };
    made = λ i lt. absurd (omega arith);
    unmade = λ i le. refl;
    counted = h;
  }
    where
      nothing : (k : Text) {i : ℕ} → lookup k c.conns ≡ some i → ⊥
      nothing k p = let p' = rw e at p in cc

module _ {g : Grpc} {MD : Type 0} (dial : Dialer g) where
  -- What NewServer makes.
  new_server-cache :
      (config : Option (Config g)) (s : Server g MD)
      → new_server config ≡ ok s
      → (s.stopped ≡ false)
        × (s.cache.conns ≡ [])
        × (s.cache.next ≡ 0)
        × ((i : ℕ) → (s.cache.heap i).in_flight ≡ pos 0)
  unfolding new_server start_sweeper new_connection_cache
  new_server-cache none s e = cc
  new_server-cache (some config) s e = (ground arith, ground arith, ground arith, λ i. ground arith)

  new_running-IsRunning :
      (config : Option (Config g)) (s : Server g MD)
      → new_server config ≡ ok s
      → IsRunning (new_running s)
  unfolding new_life
  new_running-IsRunning config s e =
      let (fresh, empty, none_made, idle) = new_server-cache config s e in
      record {
        ordered = new_life-IsOrdered s fresh;
        counted = empty-IsCounted s.cache empty none_made idle;
        few = omega arith;
      }

  -- A server that NewServer has made, whatever Start, Stop, the signals, the sweeper and the RPCs
  -- with their calls of acquire and release have done in whatever order: when Stop is complete,
  -- every connection that was ever made is closed, none has a stream, the map is empty and no RPC
  -- runs; and whatever happens from then on, it stays so.
  pub stop_leaves_nothing :
      (config : Option (Config g)) (s : Server g MD) (r u : Running g MD)
      → new_server config ≡ ok s
      → Reach dial (new_running s) r
      → r.life.stop_phase ≡ complete
      → Reach dial r u
      → ((i : ℕ)
          → i < (cache_of u.life).next
          → (((cache_of u.life).heap i).open_conn ≡ false)
            × (((cache_of u.life).heap i).in_flight ≡ pos 0))
        × ((cache_of u.life).conns ≡ [])
        × (u.life.rpcs ≡ 0)
  unfolding lookup
  stop_leaves_nothing config s r u made q h q' =
      let i = Reach-IsRunning dial q (new_running-IsRunning config s made) in
      let (still, same) = Reach-still dial q' i h in
      let j = Reach-IsRunning dial q' i in
      let empty = (j.ordered.closed still).0 in
      let over = j.ordered.drained (inr still) in
      (
        λ n lt. (
          shut u n j empty lt (Bool-cases ((cache_of u.life).heap n).open_conn),
          unpinned u j over n,
        ),
        empty,
        over,
      )
    where
      shut :
          (v : Running g MD) (n : ℕ)
          → IsRunning v
          → (cache_of v.life).conns ≡ []
          → n < (cache_of v.life).next
          → (((cache_of v.life).heap n).open_conn ≡ true)
            ⊎ (((cache_of v.life).heap n).open_conn ≡ false)
          → ((cache_of v.life).heap n).open_conn ≡ false
      shut v n j empty lt (inr closed) = closed
      shut v n j empty lt (inl is_open) =
          let (k, found) = j.counted.well_formed.no_leak n lt is_open in
          let found' = rw empty at found in cc

      unpinned :
          (v : Running g MD)
          → IsRunning v
          → v.life.rpcs ≡ 0
          → (n : ℕ) → ((cache_of v.life).heap n).in_flight ≡ pos 0
      unpinned v j over n =
          j.counted.counted n ∙ ap pos (uncounted v.holders v.stamped n (omega (arith, j.few)))
