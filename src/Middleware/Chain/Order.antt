-- ===== src/Middleware/Chain/Order.antt =====
-- Next runs every middleware once and in order, unless one of them aborts.
use g_rpcat.Base.{
  ℕ, zero, suc, ◌+◌, ◌≤◌, ◌<◌, ◌≡◌, refl, ◌⊎◌, inl, inr, true, false, List, [], ◌∷◌, some, ok,
  arith, range, length, get_elem?-lt, Bool-cases, sym, ap, range-zero-suc, append-nil,
}
use g_rpcat.Base.Int.{ℤ, pos, negsuc, succ}
use g_rpcat.Middleware.Metadata.{Metadata}
use g_rpcat.Middleware.Context.{State, reaches, abort_index}
use g_rpcat.Middleware.Chain.{
  Call, Handler, handled, printed, World, log_event, advance, handler_at, apply, loop, next_call,
  Line,
}
use g_rpcat.Middleware.Chain.Rules.{
  entered, entered-append, Ensures, Ensures-bind, Ensures-mono, apply-index, run-Ensures, loop-stop,
  loop-step,
}

-- No middleware is left to run: the context is aborted, or all `n` of them were called.
abbrev pub IsOver : ℕ → ℕ → ℤ → Type 0
IsOver n k i = (reaches i abort_index ≡ true) ⊎ ((k ≡ n) × (reaches i n ≡ true))

-- The first `k` of `n` middlewares were called, each once and in order; `lo` of them at least.
abbrev pub HasRun : {MD : Type 0} → ℕ → ℕ → ℕ → World MD → Type 0
HasRun lo n k w = (entered w.log ≡ range 0 k) × (lo ≤ k) × (k ≤ n)

-- Inside a handler, before an iteration of the loop, and behind the loop.
abbrev pub Inside : {MD : Type 0} → ℕ → ℕ → World MD → Type 0
Inside lo n w =
    (k : ℕ) × HasRun lo n k w × ((succ w.state.index ≡ pos k) ⊎ IsOver n k w.state.index)

abbrev pub Ready : {MD : Type 0} → ℕ → ℕ → World MD → Type 0
Ready lo n w = (k : ℕ) × HasRun lo n k w × ((w.state.index ≡ pos k) ⊎ IsOver n k w.state.index)

abbrev pub Finished : {MD : Type 0} → ℕ → ℕ → World MD → Type 0
Finished lo n w = (k : ℕ) × HasRun lo n k w × IsOver n k w.state.index

pub reaches-succ : (i : ℤ) (m : ℕ) → reaches i m ≡ true → reaches (succ i) m ≡ true
reaches-succ (pos n) m h = ground arith
reaches-succ (negsuc n) m h = cc

pub reaches_mono : (i : ℤ) (m n : ℕ) → n ≤ m → reaches i m ≡ true → reaches i n ≡ true
reaches_mono (pos k) m n le h = ground arith
reaches_mono (negsuc k) m n le h = cc

pub reaches_self : (n : ℕ) → reaches (pos n) n ≡ true
reaches_self n = ground arith

module _ {MD : Type 0} where
  Finished-Inside : (lo n : ℕ) (w : World MD) → Finished lo n w → Inside lo n w
  Finished-Inside lo n w (k, h, over) = (k, h, inr over)

  advance-Ready : (lo n : ℕ) (w : World MD) → Inside lo n w → Ready lo n (advance w)
  advance-Ready lo n w (k, h, inl e) = (k, h, inl e)
  advance-Ready lo n w (k, h, inr (inl a)) =
      (k, h, inr (inl (reaches-succ w.state.index abort_index a)))
  advance-Ready lo n w (k, h, inr (inr (e, a))) =
      (k, h, inr (inr (e, reaches-succ w.state.index n a)))

  -- At the end of the loop nothing is left to run.
  stop-Finished :
      (lo n : ℕ) (w : World MD) → Ready lo n w → reaches w.state.index n ≡ true → Finished lo n w
  stop-Finished lo n w (k, h, inl e) s = (k, h, inr (ground arith, s))
  stop-Finished lo n w (k, h, inr over) s = (k, h, over)

  -- Otherwise the next middleware is there, and is called.
  enter-Inside :
      (lo : ℕ) (hs : List (Handler MD)) (w : World MD)
      → length hs ≤ abort_index
      → Ready lo (length hs) w
      → reaches w.state.index (length hs) ≡ false
      → (k : ℕ) × (h : Handler MD) × (handler_at hs w.state.index ≡ ok (k, h))
        × (k < length hs)
        × Inside (suc lo) (length hs) (log_event (handled k) w)
  enter-Inside lo hs w bound (k, (e, low, le), inl i) going =
      let inside : k < length hs = ground arith in
      let (h, found) = get_elem?-lt hs k inside in
      (
        k,
        h,
        rw (i, found, handler_at),
        inside,
        (
          suc k,
          (
            rw (entered-append w.log (handled k ∷ []), e) (sym (range-zero-suc k)),
            omega arith,
            inside,
          ),
          inl (ap succ i),
        ),
      )
  enter-Inside lo hs w bound (k, h, inr (inl a)) going =
      let stop = reaches_mono w.state.index abort_index (length hs) bound a in cc
  enter-Inside lo hs w bound (k, h, inr (inr (e, a))) going = cc

module _ {MD : Type 0} ⦃m : Metadata MD⦄ where
  call-Inside :
      (lo n : ℕ) (c : Call MD) (w : World MD) (s : State MD)
      → apply c w.state ≡ some s
      → Inside lo n w
      → Inside lo n (record w { state = s })
  call-Inside lo n c w s e (k, h, p) = (k, h, moved (apply-index c w.state s e))
    where
      moved :
          (s.index ≡ w.state.index) ⊎ (s.index ≡ pos abort_index)
          → (succ s.index ≡ pos k) ⊎ IsOver n k s.index
      moved (inl same) = rw same p
      moved (inr gone) = inr (inl (rw gone (reaches_self abort_index)))

  print-Inside :
      (lo n : ℕ) (l : Line) (w : World MD) → Inside lo n w → Inside lo n (log_event (printed l) w)
  print-Inside lo n l w (k, (e, low, le), p) =
      (k, (rw (entered-append w.log (printed l ∷ []), append-nil) e, low, le), p)

  Finished-weaken : (lo n : ℕ) (w : World MD) → Finished (suc lo) n w → Finished lo n w
  Finished-weaken lo n w (k, (e, low, le), over) = (k, (e, omega arith, le), over)

  -- With fuel for the middlewares that are left the loop finishes.
  loop-Finished :
      (hs : List (Handler MD)) (fuel lo : ℕ) (w : World MD)
      → length hs ≤ abort_index
      → length hs < lo + fuel
      → Ready lo (length hs) w
      → Ensures (Finished lo (length hs)) (loop fuel hs w)
  loop-Finished hs zero lo w bound enough (k, (e, low, le), p) = absurd (omega arith)
  loop-Finished hs (suc fuel) lo w bound enough ready =
      let after : (v : World MD)
          → Inside (suc lo) (length hs) v
          → Ensures (Finished (suc lo) (length hs)) (loop fuel hs (advance v)) =
        λ v p.
          loop-Finished hs fuel (suc lo) (advance v) bound (omega arith)
            (advance-Ready (suc lo) (length hs) v p) in
      elim (Bool-cases (reaches w.state.index (length hs))) [
        | inl stop ↦ rw (loop-stop fuel hs w stop) (stop-Finished lo (length hs) w ready stop)
        | inr going ↦
            let (k, h, found, inside, entering) = enter-Inside lo hs w bound ready going in
            rw (loop-step fuel hs w k h going found) (
              Ensures-bind (Inside (suc lo) (length hs)) (Finished lo (length hs)) _ _
                (run-Ensures (Inside (suc lo) (length hs)) _
                  (λ v p. Ensures-mono _ _ _ (after v p) (Finished-Inside (suc lo) (length hs)))
                  (call-Inside (suc lo) (length hs)) (print-Inside (suc lo) (length hs)) h _
                  entering)
                (λ v p. Ensures-mono _ _ _ (after v p) (Finished-weaken lo (length hs))))
      ]

  -- Next on a context whose index is -1, as NewContext and AcquireContext leave it, and with a chain
  -- that is no longer than abortIndex: unless a handler panics, it returns, the middlewares called
  -- are the first k ones, each once and in order, and either the context is aborted or k is the
  -- length of the chain.
  pub next_call-Finished :
      (hs : List (Handler MD)) (s : State MD)
      → length hs ≤ abort_index
      → s.index ≡ negsuc 0
      → Ensures (Finished 0 (length hs)) (next_call hs (record { state = s; log = [] }))
  unfolding next_call
  next_call-Finished hs s bound fresh =
      loop-Finished hs (length hs + 1) 0 (advance (record { state = s; log = [] })) bound
        (omega arith) (0, (refl, omega arith, omega arith), inl (ap succ fresh))
