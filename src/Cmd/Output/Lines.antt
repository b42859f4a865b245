-- ===== src/Cmd/Output/Lines.antt =====
-- The lines that main prints, and that printing changes nothing of what it does.
use g_rpcat.Base.{
  bind-ok, append-nil, ◌≡◌, ◌∙◌, sym, ap, refl, List, [], ◌∷◌, ◌++◌, Option, some, Outcome, ok, err,
  panic, ◌>>=◌, arith, Any,
}
use g_rpcat.Base.Texts.{Text}
use g_rpcat.Proxy.Config.{Grpc}
use g_rpcat.Proxy.Server.{Server, new_server}
use g_rpcat.Cmd.Route.{
  RouteError, parse_route, RouteMiddleware, new_route_middleware, add_route, route_handle,
}
use g_rpcat.Cmd.Main.{Flags, Certificates, build_proxy_config}
use g_rpcat.Cmd.Startup.{
  Exit, bad_config, bad_server, bad_route, exit_by, use_ok, use_logging, use_routes,
  register_routes, start_up,
}
use g_rpcat.Cmd.Startup.Chosen.{exit_by-ok}
use g_rpcat.Cmd.Output.{
  Output, banner, route_registered, Console, silently, and_then, say, register_aloud, exit_aloud,
  announce, routes_aloud, main_aloud,
}

abbrev pub Prints : Output → List Output → Type 0
Prints line out = Any (λ l. l ≡ line) out

module _ {ℓ κ ι} {E : Type ι} {A : Type ℓ} {B : Type κ} where
  and_then-result :
      (c : Console E A) (f : A → Console E B) → (and_then c f).1 ≡ (c.1 >>= λ a. (f a).1)
  unfolding and_then
  and_then-result (out, ok a) f = refl
  and_then-result (out, err e) f = refl
  and_then-result (out, panic) f = refl

  -- A chain of steps that succeeds has printed what each of its steps has.
  and_then-ok :
      (c : Console E A) (f : A → Console E B) {b : B}
      → (and_then c f).1 ≡ ok b
      → (a : A) × (c.1 ≡ ok a) × ((f a).1 ≡ ok b) × ((and_then c f).0 ≡ c.0 ++ (f a).0)
  unfolding and_then
  and_then-ok (out, ok a) f h = (a, refl, h, refl)
  and_then-ok (out, err e) f h = cc
  and_then-ok (out, panic) f h = cc

bind-same {ℓ κ ι} :
    {E : Type ι} {A : Type ℓ} {B : Type κ} (r : Outcome E A) (f h : A → Outcome E B)
    → ((a : A) → f a ≡ h a)
    → (r >>= f) ≡ (r >>= h)
bind-same (ok a) f h e = e a
bind-same (err x) f h e = refl
bind-same panic f h e = refl

register_aloud-result :
    (rs : List Text) (router : RouteMiddleware)
    → (register_aloud rs router).1 ≡ register_routes rs router
unfolding register_aloud register_routes and_then
register_aloud-result [] router = refl
register_aloud-result (r ∷ rs) router =
    go (parse_route r) (λ s b. register_aloud-result rs (add_route s b router))
  where
    go :
        (p : Outcome RouteError (Text × Text))
        → ((s b : Text)
            → (register_aloud rs (add_route s b router)).1
              ≡ register_routes rs (add_route s b router))
        → (and_then (silently p) λ (service, backend).
            say
              (route_registered service backend)
              (register_aloud rs (add_route service backend router))).1
          ≡ (p >>= λ (service, backend). register_routes rs (add_route service backend router))
    go (ok (s, b)) h = h s b
    go (err e) h = refl
    go panic h = refl

-- The line of a route that parses.
abbrev pub line_of : Text → List Output
line_of r = elim (parse_route r) [ ok (s, b) ↦ route_registered s b ∷ [] | err e ↦ [] | panic ↦ [] ]

pub line_of-ok : (r s b : Text) → parse_route r ≡ ok (s, b) → line_of r ≡ route_registered s b ∷ []
line_of-ok r s b e = rw (e, line_of) refl

-- The lines of the routes that parse.
abbrev pub registered : List Text → List Output
registered [] = []
registered (r ∷ rs) = line_of r ++ registered rs

pub register_aloud-lines :
    (rs : List Text) (m router : RouteMiddleware)
    → (register_aloud rs m).1 ≡ ok router
    → (register_aloud rs m).0 ≡ registered rs
unfolding register_aloud
register_aloud-lines [] m router e = refl
register_aloud-lines (r ∷ rs) m router e =
    let ((s, b), parsed, rest, said) = and_then-ok (silently (parse_route r)) _ e in
    said
    ∙ ap (λ l. route_registered s b ∷ l) (register_aloud-lines rs (add_route s b m) router rest)
    ∙ ap (λ l. l ++ registered rs) (sym (line_of-ok r s b parsed))

module _ (g : Grpc) (MD : Type 0) (certs : Certificates g) where
  routes_aloud-result :
      (rs : List Text) (s : Server g MD)
      → (routes_aloud g MD certs rs s).1 ≡ use_routes g MD certs rs s
  unfolding routes_aloud use_routes
  routes_aloud-result [] s = refl
  routes_aloud-result (r ∷ rs) s =
      and_then-result (exit_aloud bad_route (register_aloud (r ∷ rs) new_route_middleware)) _
      ∙ ap (λ p. exit_by bad_route p >>= λ router. use_ok (route_handle router) s)
          (register_aloud-result (r ∷ rs) new_route_middleware)

  routes_aloud-lines :
      (rs : List Text) (s t : Server g MD)
      → (routes_aloud g MD certs rs s).1 ≡ ok t
      → (routes_aloud g MD certs rs s).0 ≡ registered rs
  unfolding routes_aloud
  routes_aloud-lines [] s t e = refl
  routes_aloud-lines (r ∷ rs) s t e =
      let (router, listed, rest, said) =
        and_then-ok (exit_aloud bad_route (register_aloud (r ∷ rs) new_route_middleware)) _ e in
      said
      ∙ append-nil _
      ∙ register_aloud-lines (r ∷ rs) new_route_middleware router (exit_by-ok bad_route _ listed)

  -- What main does once the backend is given.
  abbrev pub serving : Flags → Console Exit (Server g MD)
  serving f = and_then (silently (exit_by bad_config (build_proxy_config g certs f))) λ config.
      and_then (silently (exit_by bad_server (new_server (some config)))) λ server.
        and_then (silently (use_logging g MD certs f server)) λ logged.
          and_then (routes_aloud g MD certs f.routes logged) λ routed. (announce f, ok routed)

  serving-result :
      (f : Flags)
      → (serving f).1 ≡ (
          exit_by bad_config (build_proxy_config g certs f) >>= λ config.
          exit_by bad_server (new_server (some config)) >>= λ server.
          use_logging g MD certs f server >>= λ logged. use_routes g MD certs f.routes logged)
  serving-result f =
      and_then-result (silently (exit_by bad_config (build_proxy_config g certs f))) _
      ∙ bind-same _ _ _ λ config.
        and_then-result (silently (exit_by bad_server (new_server (some config)))) _
        ∙ bind-same _ _ _ λ server.
          and_then-result (silently (use_logging g MD certs f server)) _
          ∙ bind-same _ _ _ λ logged.
            and_then-result (routes_aloud g MD certs f.routes logged) _
            ∙ bind-ok _
            ∙ routes_aloud-result f.routes logged

  pub main_aloud-result :
      (version : Option Text) (f : Flags)
      → (main_aloud g MD certs version f).1 ≡ start_up g MD certs f
  unfolding main_aloud start_up
  main_aloud-result version f = ground (arith, serving-result f)

  serving-lines :
      (f : Flags) (s : Server g MD)
      → (serving f).1 ≡ ok s
      → (serving f).0 ≡ registered f.routes ++ announce f
  serving-lines f s e =
      let (config, built, rest, said) =
        and_then-ok (silently (exit_by bad_config (build_proxy_config g certs f))) _ e in
      let (server, made, rest', said') =
        and_then-ok (silently (exit_by bad_server (new_server (some config)))) _ rest in
      let (logged, used, rest2, said2) =
        and_then-ok (silently (use_logging g MD certs f server)) _ rest' in
      let (routed, listed, done, said3) =
        and_then-ok (routes_aloud g MD certs f.routes logged) _ rest2 in
      said
      ∙ said'
      ∙ said2
      ∙ said3
      ∙ ap (λ l. l ++ announce f) (routes_aloud-lines f.routes logged routed listed)

  pub main_aloud-lines :
      (version : Option Text) (f : Flags) (s : Server g MD)
      → (main_aloud g MD certs version f).1 ≡ ok s
      → (main_aloud g MD certs version f).0 ≡ banner ∷ registered f.routes ++ announce f
  unfolding main_aloud
  main_aloud-lines version f s e = ground (arith, serving-lines f s)
