-- ===== src/Middleware/Pool/Isolation.antt =====
-- A pooled context carries nothing from one request to the next.
use g_rpcat.Base.{ℕ, zero, suc, ◌≡◌, refl, List, [], ◌∷◌, Option, none, some, arith, All}
use g_rpcat.Base.Int.{negsuc}
use g_rpcat.Base.Texts.{Text}
use g_rpcat.Middleware.Metadata.{Metadata}
use g_rpcat.Middleware.Context.{RequestInfo, normalize_request, get}
use g_rpcat.Middleware.Chain.{Handler}
use g_rpcat.Middleware.Pool.{
  Context, reset, new_context, pool_get, acquire_context, initialize, Use, acquires, releases,
  drops, use_pool,
}

module _ {MD : Type 0} where
  -- What AcquireContext relies on: it sets only the other fields.
  pub record IsClean (c : Context MD) : Type 0 where
    pub no_response : c.state.response ≡ none
    pub no_backend : c.state.backend ≡ []
    pub no_values : c.state.values ≡ none

  pub pool_get-IsClean :
      (i : ℕ) (pool : List (Context MD))
      → All IsClean pool
      → IsClean (pool_get i pool).0 × All IsClean (pool_get i pool).1
  unfolding pool_get
  pool_get-IsClean i [] h = (record { no_response = refl; no_backend = refl; no_values = refl }, tt)
  pool_get-IsClean zero (c ∷ pool) h = h
  pool_get-IsClean (suc i) (c ∷ pool) h =
      let (one, rest) = pool_get-IsClean i pool h.1 in (one, (h.0, rest))

  pub reset-IsClean : (c : Context MD) → IsClean (reset c)
  unfolding reset
  reset-IsClean c = record { no_response = refl; no_backend = refl; no_values = refl }

module _ {MD : Type 0} ⦃m : Metadata MD⦄ where
  pub use_pool-IsClean :
      (us : List (Use MD)) (pool : List (Context MD))
      → All IsClean pool
      → All IsClean (use_pool us pool)
  unfolding use_pool
  use_pool-IsClean [] pool h = h
  use_pool-IsClean (acquires i req hs ∷ us) pool h =
      use_pool-IsClean us _ (pool_get-IsClean i pool h).1
  use_pool-IsClean (releases c ∷ us) pool h =
      use_pool-IsClean us (reset c ∷ pool) (reset-IsClean c, h)
  use_pool-IsClean (drops i ∷ us) pool h = use_pool-IsClean us _ (pool_get-IsClean i pool h).1

  prepared :
      (c : Context MD) (req : Option (RequestInfo MD)) (hs : List (Handler MD))
      → IsClean c
      → record {
        state = record {
          request = some (normalize_request req);
          response = c.state.response;
          backend = c.state.backend;
          values = some [];
          index = negsuc 0;
        };
        middlewares = hs;
      }
        ≡ new_context req hs
  unfolding new_context
  prepared c req hs clean = ground arith

  pub initialize-clean :
      (c : Context MD) (req : Option (RequestInfo MD)) (hs : List (Handler MD))
      → IsClean c
      → initialize req hs c ≡ (acquire_context 0 req hs []).0
  unfolding acquire_context pool_get
  initialize-clean c req hs clean = ground arith

  pub acquire_context_any_pool :
      (i : ℕ) (pool : List (Context MD)) (req : Option (RequestInfo MD)) (hs : List (Handler MD))
      → All IsClean pool
      → (acquire_context i req hs pool).0 ≡ (acquire_context 0 req hs []).0
  unfolding acquire_context
  acquire_context_any_pool i pool req hs clean =
      initialize-clean (pool_get i pool).0 req hs (pool_get-IsClean i pool clean).0

  -- Whatever the pool went through before, acquired, released with any contents or dropped: an
  -- acquired context is the new context for the request and the chain, but that its map of values
  -- may be nil, and it holds no value for any key.
  acquire_context_fresh :
      (us : List (Use MD)) (i : ℕ) (req : Option (RequestInfo MD)) (hs : List (Handler MD))
      (k : Text)
      → let c = (acquire_context i req hs (use_pool us [])).0 in
        (record c { state = record c.state { values = some [] } } ≡ new_context req hs)
        × (get k c.state ≡ none)
  unfolding acquire_context get
  acquire_context_fresh us i req hs k =
      let clean = (pool_get-IsClean i (use_pool us []) (use_pool-IsClean us [] tt)).0 in
      (prepared (pool_get i (use_pool us [])).0 req hs clean, ground (arith, clean.no_values))
