-- ===== src/Cmd/Output/Starting.antt =====
-- When main says that it starts the proxy.
use g_rpcat.Base.{
  subst, ◌≡◌, ◌∙◌, ◌↔◌, inl, inr, sym, refl, Bool, true, false, List, [], ◌∷◌, Option, some,
  Outcome, ok, err, panic, arith, if◌then◌else◌, Any-append, Any,
}
use g_rpcat.Base.Texts.{Text, is_empty}
use g_rpcat.Proxy.Config.{Grpc}
use g_rpcat.Proxy.Server.{Server, new_server}
use g_rpcat.Cmd.Route.{RouteError, parse_route, RouteMiddleware, new_route_middleware, add_route}
use g_rpcat.Cmd.Main.{Flags, Certificates, build_proxy_config}
use g_rpcat.Cmd.Startup.{bad_config, bad_server, bad_route, exit_by, use_logging, start_up}
use g_rpcat.Cmd.Output.{
  Output, version_line, banner, route_registered, starting_proxy, listening_on, backend_is,
  serving_tls_enabled, backend_tls_enabled, verbose_enabled, blank_line, Console, silently,
  and_then, say, register_aloud, exit_aloud, announce, routes_aloud, main_aloud,
}
use g_rpcat.Cmd.Output.Lines.{serving, registered, main_aloud-result, main_aloud-lines, serving}

-- The lines of a start: all but the version, the banner and the routes.
abbrev pub IsStartLine : Output → Type 0
IsStartLine (version_line version) = ⊥
IsStartLine banner = ⊥
IsStartLine (route_registered service backend) = ⊥
IsStartLine starting_proxy = Unit
IsStartLine (listening_on address) = Unit
IsStartLine (backend_is backend) = Unit
IsStartLine serving_tls_enabled = Unit
IsStartLine backend_tls_enabled = Unit
IsStartLine verbose_enabled = Unit
IsStartLine blank_line = Unit

abbrev pub PrintsStart : List Output → Type 0
PrintsStart out = Any IsStartLine out

-- Whatever says that the proxy starts has come to its end.
abbrev StartsOnlyOk {ℓ κ} : {E : Type κ} {A : Type ℓ} → Console E A → Type (ℓ ⊔ κ)
StartsOnlyOk {A = A} c = PrintsStart c.0 → (a : A) × (c.1 ≡ ok a)

and_then-StartsOnlyOk {ℓ κ ι} :
    {E : Type ι} {A : Type ℓ} {B : Type κ} (c : Console E A) (f : A → Console E B)
    → ¬ PrintsStart c.0
    → ((a : A) → StartsOnlyOk (f a))
    → StartsOnlyOk (and_then c f)
unfolding and_then
and_then-StartsOnlyOk (out, ok a) f quiet h k = elim ((Any-append IsStartLine out (f a).0).0 k) [
  | inl early ↦ absurd (quiet early)
  | inr late ↦ h a late
]
and_then-StartsOnlyOk (out, err e) f quiet h k = absurd (quiet k)
and_then-StartsOnlyOk (out, panic) f quiet h k = absurd (quiet k)

and_then-quiet {ℓ κ ι} :
    {E : Type ι} {A : Type ℓ} {B : Type κ} (c : Console E A) (f : A → Console E B)
    → ¬ PrintsStart c.0
    → ((a : A) → ¬ PrintsStart (f a).0)
    → ¬ PrintsStart (and_then c f).0
unfolding and_then
and_then-quiet (out, ok a) f quiet h k = elim ((Any-append IsStartLine out (f a).0).0 k) [
  | inl early ↦ quiet early
  | inr late ↦ h a late
]
and_then-quiet (out, err e) f quiet h k = quiet k
and_then-quiet (out, panic) f quiet h k = quiet k

if-StartsOnlyOk {ℓ κ} :
    {E : Type κ} {A : Type ℓ} (b : Bool) (x y : Console E A)
    → StartsOnlyOk x
    → StartsOnlyOk y
    → StartsOnlyOk (if b then x else y)
if-StartsOnlyOk true x y h k = h
if-StartsOnlyOk false x y h k = k

-- The loop over the routes prints nothing but routes, also if it fails.
register_aloud-quiet :
    (rs : List Text) (m : RouteMiddleware) → ¬ PrintsStart (register_aloud rs m).0
unfolding register_aloud
register_aloud-quiet [] m h = h
register_aloud-quiet (r ∷ rs) m h =
    go (parse_route r) (λ s b. register_aloud-quiet rs (add_route s b m)) h
  where
    go :
        (p : Outcome RouteError (Text × Text))
        → ((s b : Text) → ¬ PrintsStart (register_aloud rs (add_route s b m)).0)
        → ¬ PrintsStart
            (and_then (silently p) λ (service, backend).
              say
                (route_registered service backend)
                (register_aloud rs (add_route service backend m))).0
    go (ok (s, b)) quiet (inl same) = same
    go (ok (s, b)) quiet (inr late) = quiet s b late
    go (err e) quiet h = h
    go panic quiet h = h

module _ (g : Grpc) (MD : Type 0) (certs : Certificates g) where
  routes_aloud-quiet :
      (rs : List Text) (s : Server g MD) → ¬ PrintsStart (routes_aloud g MD certs rs s).0
  unfolding routes_aloud
  routes_aloud-quiet [] s = λ h. h
  routes_aloud-quiet (r ∷ rs) s =
      and_then-quiet (exit_aloud bad_route (register_aloud (r ∷ rs) new_route_middleware)) _
        (register_aloud-quiet (r ∷ rs) new_route_middleware) (λ router h. h)

  serving-StartsOnlyOk : (f : Flags) → StartsOnlyOk (serving g MD certs f)
  serving-StartsOnlyOk f =
      and_then-StartsOnlyOk (silently (exit_by bad_config (build_proxy_config g certs f))) _
        (λ h. h)
        λ config.
          and_then-StartsOnlyOk (silently (exit_by bad_server (new_server (some config)))) _
            (λ h. h)
            λ server.
              and_then-StartsOnlyOk (silently (use_logging g MD certs f server)) _ (λ h. h)
                λ logged.
                  and_then-StartsOnlyOk (routes_aloud g MD certs f.routes logged) _
                    (routes_aloud-quiet f.routes logged) λ routed h. (routed, refl)

  main_aloud-StartsOnlyOk :
      (version : Option Text) (f : Flags) → StartsOnlyOk (main_aloud g MD certs version f)
  unfolding main_aloud
  main_aloud-StartsOnlyOk version f =
      if-StartsOnlyOk f.version _ _ (λ h. ground arith)
        (if-StartsOnlyOk (is_empty f.backend) _ _ (λ h. ground arith)
          (λ h. elim h [ inl same ↦ absurd same | inr later ↦ serving-StartsOnlyOk f later ]))

  -- main comes to a server, which is the one of start_up, if and only if it prints a line of a start:
  -- that it starts the proxy, where it listens, the default backend, that a TLS is enabled, that it
  -- is verbose, or the blank line. A command that exits before prints none of these.
  pub main_aloud_starts :
      (version : Option Text) (f : Flags)
      → PrintsStart (main_aloud g MD certs version f).0
        ↔ ((s : Server g MD) × (start_up g MD certs f ≡ ok s))
  unfolding announce
  main_aloud_starts version f = (
    λ h.
        let (s, e) = main_aloud-StartsOnlyOk version f h in
        (s, sym (main_aloud-result g MD certs version f) ∙ e),
    λ (s, e).
        subst (PrintsStart)
          (sym
            (main_aloud-lines g MD certs version f s (main_aloud-result g MD certs version f ∙ e)))
          (inr ((Any-append IsStartLine (registered f.routes) (announce f)).1 (announced f))),
  )
    where
      announced : (f : Flags) → PrintsStart (announce f)
      announced f = inl tt
