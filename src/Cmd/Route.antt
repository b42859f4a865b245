-- ===== src/Cmd/Route.antt =====
-- parseRoute of cmd/grpcat/main.go and cmd/grpcat/middlewares/route.go.
pub mod Laws
use g_rpcat.Base.{Bool, ◌||◌, List, [], ◌∷◌, Option, none, some, Outcome, ok, err, if◌then◌else◌}
use g_rpcat.Base.Texts.{Text, cut, trim_space, is_empty}
use g_rpcat.Base.Dict.{Dict, lookup, insert}
use g_rpcat.Middleware.Chain.{Handler, return, next, call, look, panics, sets_backend, View}

pub data RouteError : Type 0 where
  invalid_route : Text → RouteError

check_route : Text → Option (Text × Text) → Outcome RouteError (Text × Text)
check_route r none = err (invalid_route r)
check_route r (some (before, after)) =
    let service = trim_space before in
    let backend = trim_space after in
    if is_empty service || is_empty backend then err (invalid_route r) else ok (service, backend)

-- Without a separator strings.Cut finds no second part, and `!ok` refuses the route.
unfoldable pub parse_route : Text → Outcome RouteError (Text × Text)
unfolding check_route
parse_route r = check_route r (cut r b'=')

pub record RouteMiddleware : Type 0 where
  pub routes : Dict Text

abbrev pub new_route_middleware : RouteMiddleware
new_route_middleware = record { routes = [] }

unfoldable pub add_route : Text → Text → RouteMiddleware → RouteMiddleware
add_route service backend m = record { routes = insert service backend m.routes }

-- A nil Request is a panic of Handle.
unfoldable pub route_handle : {MD : Type 0} → RouteMiddleware → Handler MD
route_handle m = look λ ctx. elim ctx.request [
  | none ↦ panics
  | some req ↦ elim (lookup req.service m.routes) [
    | none ↦ next return
    | some backend ↦ call (sets_backend backend) (next return)
  ]
]
