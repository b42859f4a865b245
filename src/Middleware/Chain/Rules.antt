-- ===== src/Middleware/Chain/Rules.antt =====
-- Rules for the runs of handlers: what every call and every Next keeps, a handler keeps.
use g_rpcat.Base.{
  ℕ, suc, ◌≡◌, refl, ◌⊎◌, inl, inr, true, false, List, [], ◌∷◌, ◌++◌, some, ok, err, panic, ◌>>=◌,
  arith, length, Option-cases, ap,
}
use g_rpcat.Base.Int.{pos}
use g_rpcat.Middleware.Metadata.{Metadata}
use g_rpcat.Middleware.Context.{State, reaches, abort_index}
use g_rpcat.Middleware.Chain.{
  Call, Handler, return, next, call, look, print, panics, sets, Event, handled, printed, World, Run,
  view, log_event, advance, handler_at, apply, run, loop, Line,
}

-- The indices of the middlewares that were called.
abbrev pub entered : List Event → List ℕ
entered [] = []
entered (handled n ∷ es) = n ∷ entered es
entered (printed l ∷ es) = entered es

pub entered-append : (es fs : List Event) → entered (es ++ fs) ≡ entered es ++ entered fs
entered-append [] fs = refl
entered-append (handled n ∷ es) fs = ap (λ ns. n ∷ ns) (entered-append es fs)
entered-append (printed l ∷ es) fs = entered-append es fs

-- A run ends in a world with `P`, or a handler panicked; the loop itself never fails.
abbrev pub Ensures : {MD : Type 0} → (World MD → Type 0) → Run MD → Type 0
Ensures P (ok w) = P w
Ensures P (err e) = ⊥
Ensures P panic = Unit {0}

pub Ensures-bind :
    {MD : Type 0} (P Q : World MD → Type 0) (r : Run MD) (f : World MD → Run MD)
    → Ensures P r
    → ((w : World MD) → P w → Ensures Q (f w))
    → Ensures Q (r >>= f)
Ensures-bind P Q (ok w) f h k = k w h
Ensures-bind P Q (err e) f h k = h
Ensures-bind P Q panic f h k = tt

pub Ensures-mono :
    {MD : Type 0} (P Q : World MD → Type 0) (r : Run MD)
    → Ensures P r
    → ((w : World MD) → P w → Q w)
    → Ensures Q r
Ensures-mono P Q (ok w) h k = k w h
Ensures-mono P Q (err e) h k = h
Ensures-mono P Q panic h k = tt

module _ {MD : Type 0} ⦃m : Metadata MD⦄ where
  -- A call leaves the index alone or aborts.
  pub apply-index :
      (c : Call MD) (s s' : State MD)
      → apply c s ≡ some s'
      → (s'.index ≡ s.index) ⊎ (s'.index ≡ pos abort_index)
  unfolding apply
  apply-index (sets key value) s s' e = ground arith
  apply-index c s s' e = ground arith

  -- A property of worlds that every call and every printed line keeps, and every Next, is kept by
  -- a handler.
  pub run-Ensures :
      (P : World MD → Type 0) (nxt : World MD → Run MD)
      → ((w : World MD) → P w → Ensures P (nxt w))
      → ((c : Call MD) (w : World MD) (s : State MD)
          → apply c w.state ≡ some s
          → P w
          → P (record w { state = s }))
      → ((l : Line) (w : World MD) → P w → P (log_event (printed l) w))
      → (h : Handler MD) (w : World MD) → P w
      → Ensures P (run nxt h w)
  unfolding run
  run-Ensures P nxt on_next on_call on_print return w p = p
  run-Ensures P nxt on_next on_call on_print (next k) w p =
      Ensures-bind P P (nxt w) (run nxt k) (on_next w p)
        (run-Ensures P nxt on_next on_call on_print k)
  run-Ensures P nxt on_next on_call on_print (call c k) w p =
      elim (Option-cases (apply c w.state)) [
        | inl e ↦ rw (e, run) tt
        | inr (s, e) ↦
            rw (e, run)
              (run-Ensures P nxt on_next on_call on_print k (record w { state = s })
                (on_call c w s e p))
      ]
  run-Ensures P nxt on_next on_call on_print (look f) w p =
      run-Ensures P nxt on_next on_call on_print (f (view w.state)) w p
  run-Ensures P nxt on_next on_call on_print (print l k) w p =
      run-Ensures P nxt on_next on_call on_print k (log_event (printed l) w) (on_print l w p)
  run-Ensures P nxt on_next on_call on_print panics w p = tt

  pub loop-stop :
      (fuel : ℕ) (hs : List (Handler MD)) (w : World MD)
      → reaches w.state.index (length hs) ≡ true
      → loop (suc fuel) hs w ≡ ok w
  unfolding loop
  loop-stop fuel hs w e = rw (e, loop)

  pub loop-step :
      (fuel : ℕ) (hs : List (Handler MD)) (w : World MD) (k : ℕ) (h : Handler MD)
      → reaches w.state.index (length hs) ≡ false
      → handler_at hs w.state.index ≡ ok (k, h)
      → loop (suc fuel) hs w ≡ (
          run (λ v. loop fuel hs (advance v)) h (log_event (handled k) w) >>= λ v.
          loop fuel hs (advance v))
  unfolding loop
  loop-step fuel hs w k h e found = rw (e, found, loop)
