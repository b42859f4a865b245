-- ===== src/Middleware/Chain/Tests.antt =====
-- Runs of chains and contexts, and their laws at concrete ones.
use g_rpcat.Base.{ℕ, ◌≡◌, refl, true, List, [], ◌∷◌, none, some, Outcome, ok, arith}
use g_rpcat.Base.Int.{negsuc}
use g_rpcat.Base.Texts.{Text, codes, same}
use g_rpcat.Middleware.Metadata.Pairs.{Pairs, pairs}
use g_rpcat.Middleware.Context.{State, RequestInfo, get, get_string, is_aborted, abort, abort_index}
use g_rpcat.Middleware.Chain.{
  Handler, return, next, call, World, handled, aborts_with_error, sets_backend, apply, run,
  next_call,
}
use g_rpcat.Middleware.Chain.Rules.{entered, Ensures}
use g_rpcat.Middleware.Chain.Order.{Finished, next_call-Finished}
use g_rpcat.Middleware.Chain.Abort.{Frozen, run-Frozen}

abbrev asked : RequestInfo Pairs
asked = record {
  service = codes "echo";
  method = codes "Say";
  metadata = some ((codes "k", codes "v") ∷ []);
  first_payload = none;
}

abbrev start : State Pairs
start = record {
  request = some asked;
  response = none;
  backend = [];
  values = none;
  index = negsuc 0;
}

abbrev world : World Pairs
world = record { state = start; log = [] }

-- One calls Next, one does not, and one aborts.
abbrev eager : Handler Pairs
eager = next (call (sets_backend (codes "b")) return)

abbrev plain : Handler Pairs
plain = return

abbrev refusing : Handler Pairs
refusing = call (aborts_with_error 7 (codes "no")) return

chain : Unit {0}
unfolding next_call apply is_aborted abort_index get get_string same
chain = tt

abbrev log_of {ℓ} : {E : Type ℓ} → Outcome E (World Pairs) → List ℕ
log_of (ok w) = entered w.log
log_of _ = []

chain_tests :
    (log_of (next_call (eager ∷ plain ∷ eager ∷ []) world) ≡ 0 ∷ 1 ∷ 2 ∷ [])
    × (log_of (next_call (eager ∷ refusing ∷ plain ∷ []) world) ≡ 0 ∷ 1 ∷ [])
    × (log_of (next_call [] world) ≡ [])
unfolding chain
chain_tests = (refl, refl, refl)

next_call-Finished_example :
    Ensures (Finished 0 3) (next_call (eager ∷ refusing ∷ plain ∷ []) world)
unfolding abort_index
next_call-Finished_example =
    next_call-Finished (eager ∷ refusing ∷ plain ∷ []) start (omega arith) refl

abbrev stopped : World Pairs
stopped = record { state = abort start; log = handled 0 ∷ [] }

stopped-is_aborted : is_aborted stopped.state ≡ true
unfolding chain abort
stopped-is_aborted = refl

run-Frozen_example : Ensures (Frozen (0 ∷ [])) (run (next_call (eager ∷ plain ∷ [])) eager stopped)
unfolding abort_index
run-Frozen_example = run-Frozen (eager ∷ plain ∷ []) eager stopped (omega arith) stopped-is_aborted

abbrev key : Text
key = codes "user"
