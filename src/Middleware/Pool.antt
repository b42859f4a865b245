-- ===== src/Middleware/Pool.antt =====
-- NewContext and reset of middleware/context.go, and the pool of contexts of middleware/pool.go.
-- A sync.Pool keeps some of the contexts that were put into it, hands out any of them, and makes a
-- new one when it has none to give.
pub mod Isolation
pub mod Shared
mod Tests
use g_rpcat.Base.{ℕ, List, [], ◌∷◌, ◌++◌, Option, none, some, get_elem?, suc, zero}
use g_rpcat.Base.Int.{ℤ, pos, negsuc}
use g_rpcat.Middleware.Metadata.{Metadata}
use g_rpcat.Middleware.Context.{RequestInfo, State, normalize_request}
use g_rpcat.Middleware.Chain.{Handler, World}

pub record Context (MD : Type 0) : Type 0 where
  pub state : State MD
  pub middlewares : List (Handler MD)

-- What happens to the pool: a request acquires a context, a context with any contents is
-- released, or the garbage collector drops one.
pub data Use (MD : Type 0) : Type 0 where
  acquires : ℕ → Option (RequestInfo MD) → List (Handler MD) → Use MD
  releases : Context MD → Use MD
  drops : ℕ → Use MD

module _ {MD : Type 0} where
  -- &Context{}
  abbrev pub zero_context : Context MD
  zero_context = record {
    state = record { request = none; response = none; backend = []; values = none; index = pos 0 };
    middlewares = [];
  }

  unfoldable pub reset : Context MD → Context MD
  reset c = record {
    state = record {
      request = none;
      response = none;
      backend = [];
      values = none;
      index = negsuc 0;
    };
    middlewares = [];
  }

  -- contextPool.Get, which takes the i-th pooled context; out of range it makes a new one.
  unfoldable pub pool_get : ℕ → List (Context MD) → Context MD × List (Context MD)
  pool_get i [] = (zero_context, [])
  pool_get zero (c ∷ pool) = (c, pool)
  pool_get (suc i) (c ∷ pool) = let (d, rest) = pool_get i pool in (d, c ∷ rest)

  module _ ⦃m : Metadata MD⦄ where
    unfoldable pub new_context : Option (RequestInfo MD) → List (Handler MD) → Context MD
    new_context req hs = record {
      state = record {
        request = some (normalize_request req);
        response = none;
        backend = [];
        values = some [];
        index = negsuc 0;
      };
      middlewares = hs;
    }

    -- What AcquireContext sets.
    abbrev pub initialize : Option (RequestInfo MD) → List (Handler MD) → Context MD → Context MD
    initialize req hs c = record c {
      state = record c.state { request = some (normalize_request req); index = negsuc 0 };
      middlewares = hs;
    }

    unfoldable pub acquire_context :
        ℕ
        → Option (RequestInfo MD)
        → List (Handler MD)
        → List (Context MD)
        → Context MD × List (Context MD)
    unfolding pool_get
    acquire_context i req hs pool = let (c, rest) = pool_get i pool in (initialize req hs c, rest)

    unfoldable pub release_context : Context MD → List (Context MD) → List (Context MD)
    unfolding reset
    release_context c pool = reset c ∷ pool

    unfoldable pub use_pool : List (Use MD) → List (Context MD) → List (Context MD)
    unfolding acquire_context release_context
    use_pool [] pool = pool
    use_pool (acquires i req hs ∷ us) pool = use_pool us (acquire_context i req hs pool).1
    use_pool (releases c ∷ us) pool = use_pool us (release_context c pool)
    use_pool (drops i ∷ us) pool = use_pool us (pool_get i pool).1
