-- ===== src/Middleware/Pool/Shared.antt =====
-- The contexts of middleware/pool.go as the objects that they are: the pool and the RPCs hold
-- pointers into one heap, and a middleware writes through the pointer that its RPC holds.
pub mod Pointers
pub mod Private
pub mod Alone
mod Tests
use g_rpcat.Base.{ℕ, zero, suc, List, [], ◌∷◌, Option, none, some, ◌==◌, if◌then◌else◌}
use g_rpcat.Middleware.Metadata.{Metadata}
use g_rpcat.Middleware.Context.{RequestInfo}
use g_rpcat.Middleware.Chain.{Handler}
use g_rpcat.Middleware.Pool.{Context, zero_context, reset, initialize, acquire_context}

-- The heap, of which the pointers below `next` are allocated, the pool, and the pointer that each
-- RPC holds from AcquireContext to ReleaseContext.
pub record Contexts (MD : Type 0) : Type 0 where
  pub heap : ℕ → Context MD
  pub next : ℕ
  pub pool : List ℕ
  pub held : ℕ → Option ℕ

-- What can happen: an RPC acquires its context or writes to it, or its handler returns, and the
-- garbage collector drops a pooled context.
pub data Action (MD : Type 0) : Type 0 where
  acquires : ℕ → ℕ → Option (RequestInfo MD) → List (Handler MD) → Action MD
  writes : ℕ → (Context MD → Context MD) → Action MD
  releases : ℕ → Action MD
  drops : ℕ → Action MD

unfoldable pub modify {ℓ} : {A : Type ℓ} → ℕ → (A → A) → (ℕ → A) → ℕ → A
modify i f h j = if i == j then f (h j) else h j

-- The i-th pointer of the pool, if there is one, and the others.
unfoldable pub take_free : ℕ → List ℕ → Option ℕ × List ℕ
take_free i [] = (none, [])
take_free zero (p ∷ pool) = (some p, pool)
take_free (suc i) (p ∷ pool) = let (q, rest) = take_free i pool in (q, p ∷ rest)

module _ {MD : Type 0} where
  abbrev pub no_contexts : Contexts MD
  no_contexts = record { heap = λ i. zero_context; next = 0; pool = []; held = λ r. none }

  -- contextPool.Get: a pointer out of the pool or a new one, and what is left.
  unfoldable pub pointer_or_new : Option ℕ × List ℕ → Contexts MD → ℕ × Contexts MD
  unfolding modify
  pointer_or_new (some p, rest) s = (p, record s { pool = rest })
  pointer_or_new (none, rest) s = (
    s.next,
    record s { heap = modify s.next (λ c. zero_context) s.heap; next = suc s.next; pool = rest },
  )

  unfoldable pub get_pointer : ℕ → Contexts MD → ℕ × Contexts MD
  unfolding take_free pointer_or_new
  get_pointer i s = pointer_or_new (take_free i s.pool) s

  -- A write of a middleware of RPC `r`, which holds `o`.
  unfoldable pub write_held : Option ℕ → ℕ → (Context MD → Context MD) → Contexts MD → Contexts MD
  unfolding modify
  write_held none r f s = s
  write_held (some p) r f s = record s { heap = modify p f s.heap }

  -- ReleaseContext, which TransparentHandler defers.
  unfoldable pub release_pooled : Option ℕ → ℕ → Contexts MD → Contexts MD
  unfolding modify reset
  release_pooled none r s = s
  release_pooled (some p) r s = record s {
    heap = modify p reset s.heap;
    pool = p ∷ s.pool;
    held = modify r (λ o. none) s.held;
  }

  -- The context that RPC `r` sees.
  abbrev pub context_of : Contexts MD → ℕ → Option (Context MD)
  context_of s r = elim (s.held r) [ none ↦ none | some p ↦ some (s.heap p) ]

  module _ ⦃m : Metadata MD⦄ where
    -- AcquireContext for RPC `r`, which acquires no second context while it holds one.
    unfoldable pub acquire_pooled :
        Option ℕ → ℕ → ℕ → Option (RequestInfo MD) → List (Handler MD) → Contexts MD → Contexts MD
    unfolding get_pointer modify
    acquire_pooled (some p) r i req hs s = s
    acquire_pooled none r i req hs s =
        let (p, t) = get_pointer i s in
        record t {
          heap = modify p (initialize req hs) t.heap;
          held = modify r (λ o. some p) t.held;
        }

    unfoldable pub act : Action MD → Contexts MD → Contexts MD
    unfolding acquire_pooled write_held release_pooled take_free
    act (acquires r i req hs) s = acquire_pooled (s.held r) r i req hs s
    act (writes r f) s = write_held (s.held r) r f s
    act (releases r) s = release_pooled (s.held r) r s
    act (drops i) s = record s { pool = (take_free i s.pool).1 }

    -- Any number of RPCs, their actions in turn.
    unfoldable pub act_each : List (Action MD) → Contexts MD → Contexts MD
    unfolding act
    act_each [] s = s
    act_each (a ∷ acts) s = act_each acts (act a s)

    -- The same actions for RPC `r` alone, with a context of its own that nobody else has.
    unfoldable pub alone : ℕ → Action MD → Option (Context MD) → Option (Context MD)
    unfolding acquire_context
    alone r (acquires q i req hs) o =
        if q == r
        then elim o [ some c ↦ some c | none ↦ some (acquire_context 0 req hs []).0 ]
        else o
    alone r (writes q f) o = if q == r then elim o [ none ↦ none | some c ↦ some (f c) ] else o
    alone r (releases q) o = if q == r then none else o
    alone r (drops i) o = o

    unfoldable pub alone_each : ℕ → List (Action MD) → Option (Context MD) → Option (Context MD)
    unfolding alone
    alone_each r [] o = o
    alone_each r (a ∷ acts) o = alone_each r acts (alone r a o)
