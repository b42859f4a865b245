-- ===== src/Cmd/Route/Laws.antt =====
-- Which -route values are accepted, and what the routing middleware does with them.
use g_rpcat.Base.{
  ◌≡◌, ◌≢◌, ◌↔◌, inl, inr, false, [], ◌∷◌, ◌++◌, Option, none, some, ok, arith, if◌then◌else◌,
  Option-cases, bind-ok,
}
use g_rpcat.Base.Texts.{Text, same, cut, trim_space, is_empty, Lacks, cut-append, cut_sound}
use g_rpcat.Base.Dict.{lookup, lookup-insert}
use g_rpcat.Middleware.Metadata.{Metadata}
use g_rpcat.Middleware.Context.{set_backend, RequestInfo}
use g_rpcat.Middleware.Chain.{World, Run, run, apply}
use g_rpcat.Cmd.Route.{parse_route, check_route, RouteMiddleware, add_route, route_handle}

-- `service=backend`, cut at the first '='; both sides count without the spaces round them.
abbrev pub IsRoute : Text → Text → Text → Type 0
IsRoute r service backend =
    (before : Text) × (after : Text) × (r ≡ before ++ b'=' ∷ after)
    × Lacks b'=' before
    × (trim_space before ≡ service)
    × (trim_space after ≡ backend)
    × (service ≢ [])
    × (backend ≢ [])

is_empty_iff : (s : Text) → (is_empty s ≡ false) ↔ (s ≢ [])
is_empty_iff [] = ground arith
is_empty_iff (c ∷ s) = ground arith

check_route_iff :
    (r before after s b : Text)
    → (check_route r (some (before, after)) ≡ ok (s, b))
      ↔ ((trim_space before ≡ s) × (trim_space after ≡ b) × (s ≢ []) × (b ≢ []))
unfolding check_route
check_route_iff r before after s b =
    ground (arith, is_empty_iff (trim_space before), is_empty_iff (trim_space after))

parse_route_sound : (r s b : Text) → parse_route r ≡ ok (s, b) → IsRoute r s b
unfolding parse_route check_route
parse_route_sound r s b e = elim (Option-cases (cut r b'=')) [
  | inl missed ↦ absurd (refused missed)
  | inr ((before, after), found) ↦
      let (text, lacks) = cut_sound r b'=' found in
      let (hs, hb, fs, fb) = (check_route_iff r before after s b).0 (rw found at e) in
      (before, after, text, lacks, hs, hb, fs, fb)
]
  where
    refused : cut r b'=' ≡ none → ⊥
    refused missed = let e' = rw missed at e in cc

-- A -route value is accepted as a service and a backend exactly when it is `service=backend`, cut
-- at its first '=', with neither side empty once the spaces round it are gone.
pub parse_route_iff : (r s b : Text) → (parse_route r ≡ ok (s, b)) ↔ IsRoute r s b
unfolding parse_route
parse_route_iff r s b = (
  parse_route_sound r s b,
  λ (before, after, text, lacks, hs, hb, fs, fb).
      rw (text, cut-append before after b'=' lacks)
        ((check_route_iff _ before after s b).1 (hs, hb, fs, fb)),
)

-- A registered route is found under its service, over any earlier one, and the routes of all other
-- services stay as they were.
pub lookup-add_route :
    (s j b : Text) (m : RouteMiddleware)
    → lookup j (add_route s b m).routes ≡ (if same s j then some b else lookup j m.routes)
unfolding add_route
lookup-add_route s j b m = lookup-insert s j b m.routes

-- The backend that the routing middleware leaves in a context.
abbrev pub routed : Option Text → Text → Text
routed none backend = backend
routed (some backend) _ = backend

-- On a context with a request the routing middleware sets the backend of the request's service, if
-- it has a route, and leaves the backend alone otherwise; then the rest of the chain runs.
run-route_handle :
    {MD : Type 0} ⦃m : Metadata MD⦄ (nxt : World MD → Run MD) (r : RouteMiddleware) (w : World MD)
    (req : RequestInfo MD)
    → w.state.request ≡ some req
    → run nxt (route_handle r) w
      ≡ nxt (record w {
        state = record w.state { backend = routed (lookup req.service r.routes) w.state.backend };
      })
unfolding run route_handle apply
run-route_handle {MD} nxt r w req e =
    let set : World MD = record w {
      state = set_backend (routed (lookup req.service r.routes) w.state.backend) w.state;
    } in
    ground (arith, bind-ok (nxt w), bind-ok (nxt set))
