-- ===== src/Cmd/Startup/Routed.antt =====
-- What the server that main starts does with an RPC, from its flags to the backend.
use g_rpcat.Base.{
  ℕ, ◌≡◌, ◌≢◌, inl, inr, refl, Bool, true, false, List, [], ◌∷◌, ◌++◌, Option, none, some, Outcome,
  ok, err, panic, arith, if◌then◌else◌, Option-cases,
}
use g_rpcat.Base.Int.{pos, negsuc}
use g_rpcat.Base.Texts.{Text, is_empty, same}
use g_rpcat.Base.Dict.{lookup}
use g_rpcat.Middleware.Metadata.{Metadata}
use g_rpcat.Middleware.Context.{RequestInfo, State, set_backend}
use g_rpcat.Middleware.Chain.{
  World, Handler, Event, handled, printed, Line, request_line, response_line, next_call, loop, run,
  apply,
}
use g_rpcat.Cmd.Route.{RouteError, parse_route, RouteMiddleware, route_handle}
use g_rpcat.Cmd.Route.Laws.{routed, parse_route_iff}
use g_rpcat.Cmd.Startup.Chosen.{last_route}
use g_rpcat.Cmd.Logging.{logging_handle}

-- The chain of the flags -v and -route.
abbrev pub flag_chain : {MD : Type 0} → Bool → Option RouteMiddleware → List (Handler MD)
flag_chain true none = logging_handle ∷ []
flag_chain true (some router) = logging_handle ∷ route_handle router ∷ []
flag_chain false none = []
flag_chain false (some router) = route_handle router ∷ []

-- The lines that were printed.
abbrev pub lines : List Event → List Line
lines [] = []
lines (handled n ∷ es) = lines es
lines (printed l ∷ es) = l ∷ lines es

abbrev pub chosen : Option RouteMiddleware → Text → Text → Text
chosen none service backend = backend
chosen (some router) service backend = routed (lookup service router.routes) backend

-- Where the index comes to rest, and what can be observed on the way.
abbrev pub rest : Bool → Option RouteMiddleware → ℕ
rest true none = 2
rest true (some router) = 4
rest false none = 0
rest false (some router) = 2

abbrev pub events : {MD : Type 0} → Bool → Option RouteMiddleware → RequestInfo MD → List Event
events true none req =
    handled 0
    ∷ printed (request_line req.service req.method)
    ∷ printed (response_line req.service req.method)
    ∷ []
events true (some router) req =
    handled 0
    ∷ printed (request_line req.service req.method)
    ∷ handled 1
    ∷ printed (response_line req.service req.method)
    ∷ []
events false none req = []
events false (some router) req = handled 0 ∷ []

module _ {MD : Type 0} ⦃m : Metadata MD⦄ where
  abbrev pub asked : RequestInfo MD → State MD → State MD
  asked req st = record st { request = some req; index = negsuc 0 }

  -- The world that the chain leaves.
  abbrev pub left : Bool → Option RouteMiddleware → RequestInfo MD → State MD → World MD
  left v o req st = record {
    state = record (asked req st) {
      backend = chosen o req.service st.backend;
      index = pos (rest v o);
    };
    log = events v o req;
  }

  pub next_call-flag_chain :
      (v : Bool) (o : Option RouteMiddleware) (req : RequestInfo MD) (st : State MD)
      → next_call (flag_chain v o) (record { state = asked req st; log = [] })
        ≡ ok (left v o req st)
  unfolding next_call loop run apply set_backend logging_handle route_handle
  next_call-flag_chain true none req st = refl
  next_call-flag_chain false none req st = refl
  next_call-flag_chain true (some router) req st =
      elim (Option-cases (lookup req.service router.routes)) [
        | inl missed ↦ rw (missed, run) refl
        | inr (b, found) ↦ rw (found, run) refl
      ]
  next_call-flag_chain false (some router) req st =
      elim (Option-cases (lookup req.service router.routes)) [
        | inl missed ↦ rw (missed, run) refl
        | inr (b, found) ↦ rw (found, run) refl
      ]

-- A route's backend is not empty.
pub last_route-full :
    (service : Text) (rs : List Text) (o : Option Text)
    → ((b : Text) → o ≡ some b → b ≢ [])
    → (b : Text) → last_route service rs o ≡ some b
    → b ≢ []
last_route-full service [] o h = h
last_route-full service (r ∷ rs) o h = last_route-full service rs _ (by_route (parse_route r) refl)
  where
    by_route :
        (p : Outcome RouteError (Text × Text))
        → parse_route r ≡ p
        → (b : Text)
        → elim p [
          | ok (s, backend) ↦ if same s service then some backend else o
          | err e ↦ o
          | panic ↦ o
        ]
          ≡ some b
        → b ≢ []
    by_route (ok (s, backend)) e b f =
        let (_, _, _, _, _, _, _, full) = (parse_route_iff r s backend).0 e in ground (arith, h b)
    by_route (err e) p b f = h b f
    by_route panic p b f = h b f

abbrev pub backend_of : Option Text → Text → Text
backend_of none default = default
backend_of (some b) default = b

-- The route of a service is `l`.
abbrev pub Gives : Option RouteMiddleware → Text → Option Text → Type 0
Gives none service l = l ≡ none
Gives (some router) service l = lookup service router.routes ≡ l

pub chosen_lem :
    (o : Option RouteMiddleware) (service default : Text) (l : Option Text)
    → ((b : Text) → l ≡ some b → b ≢ [])
    → Gives o service l
    → (if is_empty (chosen o service []) then default else chosen o service [])
      ≡ backend_of l default
chosen_lem none service default l full e = rw e refl
chosen_lem (some router) service default none full e = rw e refl
chosen_lem (some router) service default (some []) full e = absurd (full [] refl refl)
chosen_lem (some router) service default (some (c ∷ b)) full e = rw e refl

-- The chain of a server, by its two flags.
pub flag_chain_lem :
    {MD : Type 0} (v : Bool) (rs : List Text) (router : RouteMiddleware)
    → (if v then logging_handle {MD = MD} ∷ [] else [])
        ++ (if is_empty rs then [] else route_handle router ∷ [])
      ≡ flag_chain v (if is_empty rs then none else some router)
flag_chain_lem true [] router = refl
flag_chain_lem true (r ∷ rs) router = refl
flag_chain_lem false [] router = refl
flag_chain_lem false (r ∷ rs) router = refl

pub routes_lem :
    (rs : List Text) (router : RouteMiddleware) (service : Text)
    → lookup service router.routes ≡ last_route service rs none
    → Gives (if is_empty rs then none else some router) service (last_route service rs none)
routes_lem [] router service e = refl
routes_lem (r ∷ rs) router service e = e
