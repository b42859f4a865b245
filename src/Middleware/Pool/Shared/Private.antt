-- ===== src/Middleware/Pool/Shared/Private.antt =====
-- What an RPC does keeps every context to one holder.
use g_rpcat.Base.{
  subst, ℕ, ◌<◌, ◌≡◌, ◌≢◌, ◌⊎◌, inl, inr, refl, sym, List, [], ◌∷◌, Option, some, none, arith,
}
use g_rpcat.Base.Counts.{count}
use g_rpcat.Middleware.Metadata.{Metadata}
use g_rpcat.Middleware.Context.{RequestInfo}
use g_rpcat.Middleware.Chain.{Handler}
use g_rpcat.Middleware.Pool.{Context, reset, initialize}
use g_rpcat.Middleware.Pool.Isolation.{IsClean, reset-IsClean}
use g_rpcat.Middleware.Pool.Shared.{
  Contexts, Action, acquires, writes, releases, drops, modify, take_free, acquire_pooled,
  write_held, release_pooled, act, act_each,
}
use g_rpcat.Middleware.Pool.Shared.Pointers.{
  IsPrivate, Gets, get_pointer-Gets, fewer-IsPrivate, modify-same, modify-other, take_free-Takes,
  eq-cases,
}

module _ {MD : Type 0} where
  acquiring-IsPrivate :
      (s t : Contexts MD) (r p : ℕ) (f : Context MD → Context MD)
      → Gets s p t
      → IsPrivate (record t { heap = modify p f t.heap; held = modify r (λ o. some p) t.held })
  unfolding modify
  acquiring-IsPrivate s t r p f g = record {
    apart = λ q u a h k. ground (arith, g.free q a, g.free u a, g.private_still.apart q u a);
    busy = λ q a h. ground (arith, g.private_still.busy q a, g.allocated, g.unpooled);
    pooled = λ a h.
        let (one, made, clean) = g.private_still.pooled a h in
        (
          one,
          made,
          subst IsClean
              (sym (
                modify-other p a f t.heap
                  (λ e. omega (arith, g.unpooled, subst (λ x. 0 < count x t.pool) (sym e) h))))
              clean,
        );
  }

  writing-IsPrivate :
      (s : Contexts MD) (r p : ℕ) (f : Context MD → Context MD)
      → s.held r ≡ some p
      → IsPrivate s
      → IsPrivate (record s { heap = modify p f s.heap })
  writing-IsPrivate s r p f h v = record {
    apart = v.apart;
    busy = v.busy;
    pooled = λ a l.
        let (one, made, clean) = v.pooled a l in
        (
          one,
          made,
          subst IsClean
              (sym (
                modify-other p a f s.heap (λ e.
                  omega (arith, (v.busy r p h).1, subst (λ x. 0 < count x s.pool) (sym e) l))))
              clean,
        );
  }

  releasing-IsPrivate :
      (s : Contexts MD) (r p : ℕ)
      → s.held r ≡ some p
      → IsPrivate s
      → IsPrivate (record s {
        heap = modify p reset s.heap;
        pool = p ∷ s.pool;
        held = modify r (λ o. none) s.held;
      })
  unfolding modify count
  releasing-IsPrivate s r p h v = record {
    apart = λ q u a k l. ground (arith, v.apart q u a);
    busy = λ q a k. ground (arith, v.busy q a, v.apart q r p);
    pooled = λ a l. pooled_now a l (eq-cases p a);
  }
    where
      pooled_now :
          (a : ℕ)
          → 0 < count a (p ∷ s.pool)
          → (p ≡ a) ⊎ (p ≢ a)
          → (count a (p ∷ s.pool) ≡ 1) × (a < s.next) × IsClean (modify p reset s.heap a)
      pooled_now a l (inl e) =
          subst (λ x. (count x (p ∷ s.pool) ≡ 1) × (x < s.next) × IsClean (modify p reset s.heap x))
            e
            (
              ground (arith, v.busy r p h),
              (v.busy r p h).0,
              subst IsClean (sym (modify-same p reset s.heap)) (reset-IsClean (s.heap p)),
            )
      pooled_now a l (inr differ) =
          let more : 0 < count a s.pool = ground arith in
          let (one, made, clean) = v.pooled a more in
          (ground arith, made, subst IsClean (sym (modify-other p a reset s.heap differ)) clean)

module _ {MD : Type 0} ⦃m : Metadata MD⦄ where
  acquire_pooled-IsPrivate :
      (o : Option ℕ) (r i : ℕ) (req : Option (RequestInfo MD)) (hs : List (Handler MD))
      (s : Contexts MD)
      → IsPrivate s
      → IsPrivate (acquire_pooled o r i req hs s)
  unfolding acquire_pooled
  acquire_pooled-IsPrivate (some p) r i req hs s v = v
  acquire_pooled-IsPrivate none r i req hs s v =
      acquiring-IsPrivate s _ r _ (initialize req hs) (get_pointer-Gets i s v)

  write_held-IsPrivate :
      (o : Option ℕ) (r : ℕ) (f : Context MD → Context MD) (s : Contexts MD)
      → s.held r ≡ o
      → IsPrivate s
      → IsPrivate (write_held o r f s)
  unfolding write_held
  write_held-IsPrivate none r f s h v = v
  write_held-IsPrivate (some p) r f s h v = writing-IsPrivate s r p f h v

  release_pooled-IsPrivate :
      (o : Option ℕ) (r : ℕ) (s : Contexts MD)
      → s.held r ≡ o
      → IsPrivate s
      → IsPrivate (release_pooled o r s)
  unfolding release_pooled
  release_pooled-IsPrivate none r s h v = v
  release_pooled-IsPrivate (some p) r s h v = releasing-IsPrivate s r p h v

  pub act-IsPrivate : (a : Action MD) (s : Contexts MD) → IsPrivate s → IsPrivate (act a s)
  unfolding act
  act-IsPrivate (acquires r i req hs) s v = acquire_pooled-IsPrivate (s.held r) r i req hs s v
  act-IsPrivate (writes r f) s v = write_held-IsPrivate (s.held r) r f s refl v
  act-IsPrivate (releases r) s v = release_pooled-IsPrivate (s.held r) r s refl v
  act-IsPrivate (drops i) s v =
      fewer-IsPrivate s (take_free i s.pool).1
        (λ j. elim (take_free-Takes i s.pool) [
          | inl (nothing, same) ↦
              omega (arith, subst (λ l. count j (take_free i s.pool).1 ≡ count j l) same refl)
          | inr (p, found, counts) ↦ ground (arith, counts j)
        ])
        v

  pub act_each-IsPrivate :
      (acts : List (Action MD)) (s : Contexts MD) → IsPrivate s → IsPrivate (act_each acts s)
  unfolding act_each
  act_each-IsPrivate [] s v = v
  act_each-IsPrivate (a ∷ acts) s v = act_each-IsPrivate acts (act a s) (act-IsPrivate a s v)
