-- ===== src/Middleware/Chain/Abort.antt =====
-- An aborted context stays aborted, and no further middleware is called on it.
use g_rpcat.Base.{
  ℕ, suc, ◌+◌, ◌≤◌, ◌≡◌, refl, ◌⊎◌, inl, inr, true, List, [], ◌∷◌, some, ok, arith, length,
  append-nil,
}
use g_rpcat.Base.Int.{pos, succ}
use g_rpcat.Middleware.Metadata.{Metadata}
use g_rpcat.Middleware.Context.{State, reaches, abort_index, is_aborted}
use g_rpcat.Middleware.Chain.{
  Call, Handler, printed, World, log_event, advance, apply, run, next_call, Line,
}
use g_rpcat.Middleware.Chain.Rules.{
  entered, entered-append, Ensures, apply-index, run-Ensures, loop-stop,
}
use g_rpcat.Middleware.Chain.Order.{reaches-succ, reaches_mono, reaches_self}

-- The context is aborted, and the middlewares called so far are `ks`.
abbrev pub Frozen : {MD : Type 0} → List ℕ → World MD → Type 0
Frozen ks w = (is_aborted w.state ≡ true) × (entered w.log ≡ ks)

module _ {MD : Type 0} ⦃m : Metadata MD⦄ where
  -- Next on an aborted context calls no middleware and only moves the index on.
  next_call_aborted :
      (hs : List (Handler MD)) (w : World MD)
      → length hs ≤ abort_index
      → is_aborted w.state ≡ true
      → (next_call hs w ≡ ok (advance w)) × (is_aborted (advance w).state ≡ true)
  unfolding next_call is_aborted
  next_call_aborted hs w bound gone =
      let still = reaches-succ w.state.index abort_index gone in
      let stop = reaches_mono (succ w.state.index) abort_index (length hs) bound still in
      let e : length hs + 1 ≡ suc (length hs) = omega arith in
      (rw e (loop-stop (length hs) hs (advance w) stop), still)

  next_call-Frozen :
      (ks : List ℕ) (hs : List (Handler MD))
      → length hs ≤ abort_index
      → (w : World MD) → Frozen ks w
      → Ensures (Frozen ks) (next_call hs w)
  next_call-Frozen ks hs bound w (gone, e) =
      let (done, still) = next_call_aborted hs w bound gone in rw done (still, e)

  call-Frozen :
      (ks : List ℕ) (c : Call MD) (w : World MD) (s : State MD)
      → apply c w.state ≡ some s
      → Frozen ks w
      → Frozen ks (record w { state = s })
  unfolding is_aborted
  call-Frozen ks c w s e (gone, same) = (kept (apply-index c w.state s e), same)
    where
      kept :
          (s.index ≡ w.state.index) ⊎ (s.index ≡ pos abort_index)
          → reaches s.index abort_index ≡ true
      kept (inl e) = rw e gone
      kept (inr e) = rw e (reaches_self abort_index)

  print-Frozen :
      (ks : List ℕ) (l : Line) (w : World MD) → Frozen ks w → Frozen ks (log_event (printed l) w)
  print-Frozen ks l w (gone, e) = (gone, rw (entered-append w.log (printed l ∷ []), append-nil) e)

  -- Whatever the rest of a handler does with an aborted context, Next included: unless it panics, the
  -- context stays aborted and no middleware of a chain no longer than abortIndex is called.
  pub run-Frozen :
      (hs : List (Handler MD)) (h : Handler MD) (w : World MD)
      → length hs ≤ abort_index
      → is_aborted w.state ≡ true
      → Ensures (Frozen (entered w.log)) (run (next_call hs) h w)
  run-Frozen hs h w bound gone =
      run-Ensures (Frozen (entered w.log)) (next_call hs)
        (next_call-Frozen (entered w.log) hs bound) (call-Frozen (entered w.log))
        (print-Frozen (entered w.log)) h w (gone, refl)
