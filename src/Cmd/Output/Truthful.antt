-- ===== src/Cmd/Output/Truthful.antt =====
-- What main prints is what it does.
use g_rpcat.Base.{
  subst, ◌≡◌, ◌≢◌, ◌∙◌, ◌⊎◌, ◌↔◌, inl, inr, sym, refl, true, List, [], ◌∷◌, ◌++◌, Option, none,
  Outcome, if◌then◌else◌, ap, ok, err, panic, arith, Any, Any-append, some,
}
use g_rpcat.Base.Texts.{Text, same, is_empty}
use g_rpcat.Base.Dict.{lookup}
use g_rpcat.Proxy.Config.{Grpc, Config}
use g_rpcat.Proxy.Server.{Server}
use g_rpcat.Cmd.Route.{RouteError, parse_route}
use g_rpcat.Cmd.Main.{Flags, Certificates, build_proxy_config}
use g_rpcat.Cmd.Main.Tls.{build_proxy_config-secure, build_proxy_config-backend}
use g_rpcat.Cmd.Startup.{start_up}
use g_rpcat.Cmd.Logging.{logging_handle}
use g_rpcat.Cmd.Startup.Chosen.{start_up-config, start_up_lem, last_route}
use g_rpcat.Cmd.Output.{
  Output, banner, route_registered, backend_is, serving_tls_enabled, backend_tls_enabled, announce,
  main_aloud, RouteMiddleware, route_handle,
}
use g_rpcat.Cmd.Output.Lines.{
  Prints, registered, line_of, line_of-ok, main_aloud-result, main_aloud-lines, serving,
}

-- The lines of routes are nothing else.
registered-Prints :
    (rs : List Text) (line : Output)
    → Prints line (registered rs)
    → (service : Text) × (backend : Text) × (line ≡ route_registered service backend)
      × Any (λ r. parse_route r ≡ ok (service, backend)) rs
registered-Prints [] line h = absurd h
registered-Prints (r ∷ rs) line h = go (parse_route r) refl (λ k. registered-Prints rs line k) h
  where
    go :
        (p : Outcome RouteError (Text × Text))
        → parse_route r ≡ p
        → (Prints line (registered rs)
            → (service : Text) × (backend : Text) × (line ≡ route_registered service backend)
              × Any (λ r. parse_route r ≡ ok (service, backend)) rs)
        → Prints line (
            elim p [ ok (s, b) ↦ route_registered s b ∷ [] | err e ↦ [] | panic ↦ [] ]
            ++ registered rs)
        → (service : Text) × (backend : Text) × (line ≡ route_registered service backend)
          × Any (λ r. parse_route r ≡ ok (service, backend)) (r ∷ rs)
    go (ok (s, b)) e ih (inl here) = (s, b, sym here, inl e)
    go (ok (s, b)) e ih (inr there) =
        let (s', b', same, found) = ih there in (s', b', same, inr found)
    go (err x) e ih k = let (s', b', same, found) = ih k in (s', b', same, inr found)
    go panic e ih k = let (s', b', same, found) = ih k in (s', b', same, inr found)

registered-Prints_all :
    (rs : List Text) (service backend : Text)
    → Any (λ r. parse_route r ≡ ok (service, backend)) rs
    → Prints (route_registered service backend) (registered rs)
registered-Prints_all [] service backend h = absurd h
registered-Prints_all (r ∷ rs) service backend (inl here) =
    (Any-append (λ l. l ≡ route_registered service backend) (line_of r) (registered rs)).2 (
      subst (Prints (route_registered service backend)) (sym (line_of-ok r service backend here))
        (inl refl))
registered-Prints_all (r ∷ rs) service backend (inr there) =
    (Any-append (λ l. l ≡ route_registered service backend) (line_of r) (registered rs)).1
      (registered-Prints_all rs service backend there)

announce-Prints :
    (f : Flags)
    → (Prints serving_tls_enabled (announce f) ↔ (f.tls_cert ≢ []))
      × (Prints backend_tls_enabled (announce f) ↔ (f.backend_tls ≡ true))
      × ((b : Text) → Prints (backend_is b) (announce f) ↔ (b ≡ f.backend))
      × ((s b : Text) → ¬ Prints (route_registered s b) (announce f))
unfolding announce
announce-Prints f = ground arith

same_route :
    (s b s' b' : Text) (rs : List Text)
    → route_registered s b ≡ route_registered s' b'
    → Any (λ r. parse_route r ≡ ok (s', b')) rs
    → Any (λ r. parse_route r ≡ ok (s, b)) rs
same_route s b s' b' rs e h =
    let same_s : s ≡ s' = cc in let same_b : b ≡ b' = cc in rw (same_s, same_b) h

-- The backend of the last line of a route for a service; `o` if there is no such line.
abbrev pub last_printed : Text → List Output → Option Text → Option Text
last_printed service [] o = o
last_printed service (line ∷ out) o =
    last_printed service out (elim line [
      | route_registered s backend ↦ if same s service then some backend else o
      | _ ↦ o
    ])

last_printed-append :
    (service : Text) (out more : List Output) (o : Option Text)
    → last_printed service (out ++ more) o ≡ last_printed service more (last_printed service out o)
last_printed-append service [] more o = refl
last_printed-append service (line ∷ out) more o = last_printed-append service out more _

last_printed-registered :
    (service : Text) (rs : List Text) (o : Option Text)
    → last_printed service (registered rs) o ≡ last_route service rs o
last_printed-registered service [] o = refl
last_printed-registered service (r ∷ rs) o =
    last_printed-append service (line_of r) (registered rs) o
    ∙ last_printed-registered service rs _
    ∙ ap (last_route service rs) (by_route (parse_route r))
  where
    by_route :
        (p : Outcome RouteError (Text × Text))
        → last_printed service
            (elim p [ ok (s, b) ↦ route_registered s b ∷ [] | err e ↦ [] | panic ↦ [] ])
            o
          ≡ elim p [
            | ok (s, backend) ↦ if same s service then some backend else o
            | err e ↦ o
            | panic ↦ o
          ]
    by_route (ok (s, b)) = refl
    by_route (err e) = refl
    by_route panic = refl

last_printed-announce :
    (service : Text) (f : Flags) (o : Option Text) → last_printed service (announce f) o ≡ o
unfolding announce
last_printed-announce service f o = ground (arith)

last_printed-lines :
    (service : Text) (f : Flags)
    → last_printed service (banner ∷ registered f.routes ++ announce f) none
      ≡ last_route service f.routes none
last_printed-lines service f =
    last_printed-append service (banner ∷ registered f.routes) (announce f) none
    ∙ last_printed-announce service f _
    ∙ last_printed-registered service f.routes none

module _ (g : Grpc) (MD : Type 0) (certs : Certificates g) where
  all_lines :
      (f : Flags) (line : Output)
      → line ≢ banner
      → Prints line (banner ∷ registered f.routes ++ announce f)
        ↔ (Prints line (registered f.routes) ⊎ Prints line (announce f))
  all_lines f line other =
      let (split, right, left) = Any-append (λ l. l ≡ line) (registered f.routes) (announce f) in
      (
        λ h. elim h [ inl here ↦ absurd (other (sym here)) | inr later ↦ split later ],
        λ h. elim h [ inl early ↦ inr (left early) | inr late ↦ inr (right late) ],
      )

  -- What the lines `out` say of the server `s` and of the routes of the flags.
  abbrev pub Truthful : Flags → Server g MD → List Output → Type 0
  Truthful f s out =
      (Prints serving_tls_enabled out ↔ (s.config.server_options ≢ []))
      × (Prints backend_tls_enabled out ↔ (s.config.backend_transport_creds ≢ none))
      × ((b : Text) → Prints (backend_is b) out ↔ (b ≡ s.config.default_backend))
      × ((service b : Text)
          → Prints (route_registered service b) out
            ↔ Any (λ r. parse_route r ≡ ok (service, b)) f.routes)
      × ((router : RouteMiddleware) × (s.middlewares
            ≡ (if f.verbose then logging_handle ∷ [] else [])
              ++ (if is_empty f.routes then [] else route_handle router ∷ []))
          × ((service : Text) → lookup service router.routes ≡ last_printed service out none))

  secure :
      (f : Flags) (cfg : Config g)
      → build_proxy_config g certs f ≡ ok cfg
      → ((f.tls_cert ≢ []) ↔ (cfg.server_options ≢ []))
        × ((f.backend_tls ≡ true) ↔ (cfg.backend_transport_creds ≢ none))
  secure f cfg e =
      let (serves, dials) = build_proxy_config-secure g certs f cfg e in
      (ground arith, ground arith)

  lines-Truthful :
      (f : Flags) (s : Server g MD)
      → start_up g MD certs f ≡ ok s
      → Truthful f s (banner ∷ registered f.routes ++ announce f)
  lines-Truthful f s started =
      let e = start_up-config g MD certs f s started in
      let (default, given, (router, chain, routes)) = start_up_lem g MD certs f s started in
      let (serving, backends) = secure f s.config e in
      let given_backend = build_proxy_config-backend g certs f s.config e in
      let (serving', backends', backend, no_route) = announce-Prints f in
      (
        not_route serving_tls_enabled (λ h. cc) (λ a b h. cc) serving' serving,
        not_route backend_tls_enabled (λ h. cc) (λ a b h. cc) backends' backends,
        λ b.
            not_route (backend_is b) (λ h. cc) (λ a b h. cc) (backend b)
              (λ h. h ∙ sym given_backend, λ h. h ∙ given_backend),
        λ service b. (
          λ h. elim ((all_lines f (route_registered service b) (λ k. cc)).0 h) [
            | inl early ↦
                let (a, c, k, found) =
                  registered-Prints f.routes (route_registered service b) early in
                same_route service b a c f.routes k found
            | inr late ↦ absurd (no_route service b late)
          ],
          λ h.
              (all_lines f (route_registered service b) (λ k. cc)).1
                (inl (registered-Prints_all f.routes service b h)),
        ),
        (router, chain, λ service. routes service ∙ sym (last_printed-lines service f)),
      )
    where
      not_route :
          {P Q : Type 0} (line : Output)
          → line ≢ banner
          → ((a b : Text) → line ≢ route_registered a b)
          → (Prints line (announce f) ↔ P)
          → (P ↔ Q)
          → Prints line (banner ∷ registered f.routes ++ announce f) ↔ Q
      not_route line other other' announced agree = (
        λ h. elim ((all_lines f line other).0 h) [
          | inl early ↦
              let (a, b, e, found) = registered-Prints f.routes line early in absurd (other' a b e)
          | inr late ↦ agree.0 (announced.0 late)
        ],
        λ q. (all_lines f line other).1 (inr (announced.1 (agree.1 q))),
      )

  -- What main prints of the server that it starts is true: "Serving TLS: enabled" is printed if and
  -- only if the configuration has a server option, which is the credentials, "Backend TLS: enabled"
  -- if and only if it has credentials for the backends, the backend line names the default backend,
  -- and a route is printed if and only if a -route value is parsed as that route. The server's chain
  -- is the logging middleware if -v is given, and then the routing middleware if there is a -route,
  -- which gives each service the backend of the last line that was printed of a route for it, and
  -- none if there is no such line.
  pub main_aloud-Truthful :
      (version : Option Text) (f : Flags) (s : Server g MD)
      → start_up g MD certs f ≡ ok s
      → Truthful f s (main_aloud g MD certs version f).0
  main_aloud-Truthful version f s e =
      subst (Truthful f s)
        (sym (main_aloud-lines g MD certs version f s (main_aloud-result g MD certs version f ∙ e)))
        (lines-Truthful f s e)
