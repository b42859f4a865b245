-- ===== src/Middleware/Chain.antt =====
-- Context.Next of middleware/context.go and the handlers that it runs (middleware/middleware.go).
-- A handler is the tree of what it does with its context: it sees the exported fields and
-- IsAborted, calls methods, prints, and goes on by what it has seen. It does not put another
-- request or chain into the context; a panic of a handler ends the run.
pub mod Rules
pub mod Order
pub mod Abort
mod Tests
use g_rpcat.Base.{
  ℕ, zero, suc, ◌+◌, ◌≡◌, Bool, true, false, List, [], ◌∷◌, ◌++◌, Option, none, some, Outcome, ok,
  err, panic, ◌>>=◌, length, get_elem?, or_panic,
}
use g_rpcat.Base.Int.{ℤ, pos, negsuc, succ}
use g_rpcat.Base.Texts.{Text}
use g_rpcat.Base.Dict.{Dict}
use g_rpcat.Middleware.Metadata.{Metadata}
use g_rpcat.Middleware.Context.{
  RequestInfo, ResponseInfo, Any, State, set, abort, abort_with_error, send_response, set_backend,
  add_metadata, is_aborted, reaches,
}

-- A call of a context's method, or an assignment to one of its exported fields.
pub data Call (MD : Type 0) : Type 0 where
  sets : Text → Any → Call MD
  aborts : Call MD
  aborts_with_error : ℕ → Text → Call MD
  sends_response : Option (List ℕ) → Call MD
  sets_backend : Text → Call MD
  adds_metadata : Text → Text → Call MD
  edits_request : (RequestInfo MD → RequestInfo MD) → Call MD
  assigns_response : Option ResponseInfo → Call MD

-- What a handler can see of its context.
pub record View (MD : Type 0) : Type 0 where
  pub request : Option (RequestInfo MD)
  pub response : Option ResponseInfo
  pub backend : Text
  pub values : Option (Dict Any)
  pub aborted : Bool

-- The lines that the logging middleware prints, without the time.
pub data Line : Type 0 where
  request_line response_line : Text → Text → Line

pub data Handler (MD : Type 0) : Type 0 where
  return : Handler MD
  -- ctx.Next(), and the rest
  next : Handler MD → Handler MD
  call : Call MD → Handler MD → Handler MD
  look : (View MD → Handler MD) → Handler MD
  print : Line → Handler MD → Handler MD
  panics : Handler MD

-- What can be observed: the i-th middleware was called, or a line was printed.
pub data Event : Type 0 where
  handled : ℕ → Event
  printed : Line → Event

pub record World (MD : Type 0) : Type 0 where
  pub state : State MD
  pub log : List Event

-- Neither can happen: see Order.
pub data Fault : Type 0 where
  out_of_fuel index_out_of_range : Fault

abbrev pub Run : Type 0 → Type 0
Run MD = Outcome Fault (World MD)

module _ {MD : Type 0} where
  abbrev pub view : State MD → View MD
  view c = record {
    request = c.request;
    response = c.response;
    backend = c.backend;
    values = c.values;
    aborted = is_aborted c;
  }

  abbrev pub log_event : Event → World MD → World MD
  log_event e w = record w { log = w.log ++ e ∷ [] }

  -- c.index++
  abbrev pub advance : World MD → World MD
  advance w = record w { state = record w.state { index = succ w.state.index } }

  abbrev pub handler_at : List (Handler MD) → ℤ → Outcome Fault (ℕ × Handler MD)
  handler_at hs (negsuc n) = err index_out_of_range
  handler_at hs (pos n) = elim (get_elem? hs n) [
    | none ↦ err index_out_of_range
    | some h ↦ ok (n, h)
  ]

  module _ ⦃m : Metadata MD⦄ where
    unfoldable pub apply : Call MD → State MD → Option (State MD)
    unfolding set abort abort_with_error send_response set_backend add_metadata
    apply (sets key value) c = some (set key value c)
    apply aborts c = some (abort c)
    apply (aborts_with_error code msg) c = some (abort_with_error code msg c)
    apply (sends_response bytes) c = some (send_response bytes c)
    apply (sets_backend backend) c = some (set_backend backend c)
    apply (adds_metadata key value) c = add_metadata key value c
    apply (edits_request f) c = elim c.request [
      | none ↦ none
      | some req ↦ some (record c { request = some (f req) })
    ]
    apply (assigns_response r) c = some (record c { response = r })

    -- A handler, given what ctx.Next() does.
    unfoldable pub run : (World MD → Run MD) → Handler MD → World MD → Run MD
    run nxt return w = ok w
    run nxt (next k) w = nxt w >>= run nxt k
    run nxt (call c k) w = elim (apply c w.state) [
      | none ↦ panic
      | some s ↦ run nxt k (record w { state = s })
    ]
    run nxt (look f) w = run nxt (f (view w.state)) w
    run nxt (print l k) w = run nxt k (log_event (printed l) w)
    run nxt panics w = panic

    -- The loop of Next; the fuel counts rounds and nested calls.
    unfoldable pub loop : ℕ → List (Handler MD) → World MD → Run MD
    unfolding run
    loop zero hs w = err out_of_fuel
    loop (suc fuel) hs w = elim (reaches w.state.index (length hs)) [
      | true ↦ ok w
      | false ↦ handler_at hs w.state.index >>= λ (n, h).
          run (λ v. loop fuel hs (advance v)) h (log_event (handled n) w) >>= λ v.
          loop fuel hs (advance v)
    ]

    -- Context.Next, with a chain `hs`
    unfoldable pub next_call : List (Handler MD) → World MD → Run MD
    unfolding loop
    next_call hs w = loop (length hs + 1) hs (advance w)
