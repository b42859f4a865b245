-- ===== src/Middleware/Pool/Shared/Alone.antt =====
-- Each RPC sees its context as if nobody else had one.
use g_rpcat.Base.{
  subst, ℕ, ◌≡◌, ◌≢◌, inl, inr, refl, sym, ap, ◌∙◌, List, [], ◌∷◌, Option, some, none, arith,
}
use g_rpcat.Base.Counts.{count}
use g_rpcat.Middleware.Metadata.{Metadata}
use g_rpcat.Middleware.Context.{RequestInfo}
use g_rpcat.Middleware.Chain.{Handler}
use g_rpcat.Middleware.Pool.{Context, reset, initialize, acquire_context}
use g_rpcat.Middleware.Pool.Isolation.{initialize-clean}
use g_rpcat.Middleware.Pool.Shared.{
  Contexts, Action, acquires, writes, releases, drops, modify, get_pointer, acquire_pooled,
  write_held, release_pooled, act, act_each, no_contexts, context_of, alone, alone_each,
}
use g_rpcat.Middleware.Pool.Shared.Pointers.{
  IsPrivate, Gets, get_pointer-Gets, modify-same, modify-other, eq-cases,
}
use g_rpcat.Middleware.Pool.Shared.Private.{act-IsPrivate, act_each-IsPrivate}

module _ {MD : Type 0} where
  sees-same :
      (s u : Contexts MD) (r : ℕ)
      → u.held r ≡ s.held r
      → ((b : ℕ) → s.held r ≡ some b → u.heap b ≡ s.heap b)
      → context_of u r ≡ context_of s r
  sees-same s u r e h = go (s.held r) (u.held r) e h
    where
      go :
          (o o' : Option ℕ)
          → o' ≡ o
          → ((b : ℕ) → o ≡ some b → u.heap b ≡ s.heap b)
          → elim o' [ none ↦ none | some p ↦ some (u.heap p) ]
            ≡ elim o [ none ↦ none | some p ↦ some (s.heap p) ]
      go none none e k = refl
      go none (some a) e k = absurd cc
      go (some b) none e k = absurd cc
      go (some b) (some a) e k = let same : a ≡ b = cc in rw (same, k b refl) refl

  sees : (s : Contexts MD) (r p : ℕ) → s.held r ≡ some p → context_of s r ≡ some (s.heap p)
  sees s r p h = rw (h, context_of) refl

  sees_none : (s : Contexts MD) (r : ℕ) → s.held r ≡ none → context_of s r ≡ none
  sees_none s r h = rw (h, context_of) refl

module _ {MD : Type 0} ⦃m : Metadata MD⦄ where
  acquire_pooled-alone :
      (o : Option ℕ) (q i : ℕ) (req : Option (RequestInfo MD)) (hs : List (Handler MD))
      (s : Contexts MD) (r : ℕ)
      → s.held q ≡ o
      → IsPrivate s
      → context_of (acquire_pooled o q i req hs s) r
        ≡ alone r (acquires q i req hs) (context_of s r)
  unfolding acquire_pooled alone
  acquire_pooled-alone (some p) q i req hs s r h v = elim (eq-cases q r) [
    | inl e ↦ ground (arith, sees s r p (subst (λ x. s.held x ≡ some p) e h))
    | inr d ↦ ground arith
  ]
  acquire_pooled-alone none q i req hs s r h v = elim (eq-cases q r) [
    | inl e ↦ ground (arith, sees_none s r (subst (λ x. s.held x ≡ none) e h), mine e)
    | inr d ↦ ground (arith, other d)
  ]
    where
      g : Gets s (get_pointer i s).0 (get_pointer i s).1
      g = get_pointer-Gets i s v

      u : Contexts MD
      u = acquire_pooled none q i req hs s

      mine : q ≡ r → context_of u r ≡ some (acquire_context 0 req hs []).0
      mine e =
          sees u r (get_pointer i s).0 (
            subst (λ x. u.held x ≡ some (get_pointer i s).0) e
              (modify-same q (λ o. some (get_pointer i s).0) (get_pointer i s).1.held))
          ∙ ap some (
              modify-same (get_pointer i s).0 (initialize req hs) (get_pointer i s).1.heap
              ∙ initialize-clean ((get_pointer i s).1.heap (get_pointer i s).0) req hs g.clean)

      same_held : (x : ℕ) → (get_pointer i s).1.held x ≡ s.held x
      same_held x = ap (λ f. f x) g.same_held

      other : q ≢ r → context_of u r ≡ context_of s r
      other d =
          sees-same s u r
            (modify-other q r (λ o. some (get_pointer i s).0) (get_pointer i s).1.held d
              ∙ same_held r)
            (λ b k.
              let apart = g.free r b (same_held r ∙ k) in
              modify-other (get_pointer i s).0 b (initialize req hs) (get_pointer i s).1.heap apart
              ∙ g.untouched b apart)

  write_held-alone :
      (o : Option ℕ) (q : ℕ) (f : Context MD → Context MD) (s : Contexts MD) (r : ℕ)
      → s.held q ≡ o
      → IsPrivate s
      → context_of (write_held o q f s) r ≡ alone r (writes q f) (context_of s r)
  unfolding write_held alone modify
  write_held-alone none q f s r h v = elim (eq-cases q r) [
    | inl e ↦ ground (arith, sees_none s r (subst (λ x. s.held x ≡ none) e h))
    | inr d ↦ ground arith
  ]
  write_held-alone (some p) q f s r h v = elim (eq-cases q r) [
    | inl e ↦
        let h' : s.held r ≡ some p = subst (λ x. s.held x ≡ some p) e h in
        ground (arith, sees s r p h', sees (record s { heap = modify p f s.heap }) r p h')
    | inr d ↦ ground (
      arith,
      sees-same s (record s { heap = modify p f s.heap }) r refl
          (λ b k.
            modify-other p b f s.heap
              (λ e. d (v.apart q r p h (subst (λ x. s.held r ≡ some x) (sym e) k)))),
    )
  ]

  release_pooled-alone :
      (o : Option ℕ) (q : ℕ) (s : Contexts MD) (r : ℕ)
      → s.held q ≡ o
      → IsPrivate s
      → context_of (release_pooled o q s) r ≡ alone r (releases q) (context_of s r)
  unfolding release_pooled alone modify
  release_pooled-alone none q s r h v = elim (eq-cases q r) [
    | inl e ↦ ground (arith, sees_none s r (subst (λ x. s.held x ≡ none) e h))
    | inr d ↦ ground arith
  ]
  release_pooled-alone (some p) q s r h v = elim (eq-cases q r) [
    | inl e ↦ ground (arith, sees_none (release_pooled (some p) q s) r (ground arith))
    | inr d ↦ ground (
      arith,
      sees-same s (release_pooled (some p) q s) r (ground arith) (λ b k.
          modify-other p b reset s.heap
            (λ e. d (v.apart q r p h (subst (λ x. s.held r ≡ some x) (sym e) k)))),
    )
  ]

  act-alone :
      (a : Action MD) (s : Contexts MD) (r : ℕ)
      → IsPrivate s
      → context_of (act a s) r ≡ alone r a (context_of s r)
  unfolding act alone
  act-alone (acquires q i req hs) s r v = acquire_pooled-alone (s.held q) q i req hs s r refl v
  act-alone (writes q f) s r v = write_held-alone (s.held q) q f s r refl v
  act-alone (releases q) s r v = release_pooled-alone (s.held q) q s r refl v
  act-alone (drops i) s r v = refl

  act_each-alone :
      (acts : List (Action MD)) (s : Contexts MD) (r : ℕ)
      → IsPrivate s
      → context_of (act_each acts s) r ≡ alone_each r acts (context_of s r)
  unfolding act_each alone_each
  act_each-alone [] s r v = refl
  act_each-alone (a ∷ acts) s r v =
      act_each-alone acts (act a s) r (act-IsPrivate a s v)
      ∙ ap (alone_each r acts) (act-alone a s r v)

  no_contexts-IsPrivate : IsPrivate (no_contexts {MD = MD})
  unfolding count
  no_contexts-IsPrivate = record {
    apart = λ q r p h k. absurd cc;
    busy = λ r p h. absurd cc;
    pooled = λ p h. absurd (omega arith);
  }

  -- Any number of RPCs, whose handlers acquire their contexts, write to them and release them in any
  -- order while the garbage collector drops pooled ones: each RPC sees its context as it would if it
  -- were alone and its context came from an empty pool, changed by its own writes only; and no two
  -- RPCs hold one context, nor is a context that one of them holds in the pool.
  pub pooled_contexts_private :
      (acts : List (Action MD)) (r : ℕ)
      → (context_of (act_each acts no_contexts) r ≡ alone_each r acts none)
        × ((q p : ℕ)
            → (act_each acts no_contexts).held r ≡ some p
            → (count p (act_each acts no_contexts).pool ≡ 0)
              × ((act_each acts no_contexts).held q ≡ some p → q ≡ r))
  pooled_contexts_private acts r =
      let v = act_each-IsPrivate acts no_contexts no_contexts-IsPrivate in
      (
        act_each-alone acts no_contexts r no_contexts-IsPrivate,
        λ q p h. ((v.busy r p h).1, λ k. v.apart q r p k h),
      )
