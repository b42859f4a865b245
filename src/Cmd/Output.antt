-- ===== src/Cmd/Output.antt =====
-- What main of cmd/grpcat/main.go prints on its way from the flags to the server that is started.
pub mod Lines
pub mod Starting
pub mod Truthful
mod Tests
use g_rpcat.Base.{
  ℕ, true, false, List, [], ◌∷◌, ◌++◌, Option, none, some, Outcome, ok, err, panic, if◌then◌else◌,
}
use g_rpcat.Base.Texts.{Text, codes, is_empty}
use g_rpcat.Proxy.Config.{Grpc, Config}
use g_rpcat.Proxy.Server.{Server, new_server}
use g_rpcat.Cmd.Route.{
  RouteError, parse_route, RouteMiddleware, new_route_middleware, add_route, route_handle,
}
use g_rpcat.Cmd.Main.{Flags, Certificates, build_proxy_config}
use g_rpcat.Cmd.Startup.{
  Exit, version_shown, backend_required, bad_config, bad_server, bad_route, exit_by, use_ok,
  use_logging,
}

-- The lines, by what they say; those of log.Printf without the time.
pub data Output : Type 0 where
  version_line : Text → Output
  banner : Output
  route_registered : Text → Text → Output
  starting_proxy : Output
  listening_on backend_is : Text → Output
  serving_tls_enabled backend_tls_enabled verbose_enabled : Output
  blank_line : Output

-- What was printed, and what came of it.
abbrev pub Console {ℓ κ} : Type κ → Type ℓ → Type (ℓ ⊔ κ)
Console E A = List Output × Outcome E A

abbrev pub silently {ℓ κ} : {E : Type κ} {A : Type ℓ} → Outcome E A → Console E A
silently r = ([], r)

unfoldable pub and_then {ℓ κ ι} :
    {E : Type ι} {A : Type ℓ} {B : Type κ} → Console E A → (A → Console E B) → Console E B
and_then (out, ok a) f = let (more, r) = f a in (out ++ more, r)
and_then (out, err e) f = (out, err e)
and_then (out, panic) f = (out, panic)

abbrev pub say {ℓ κ} : {E : Type κ} {A : Type ℓ} → Output → Console E A → Console E A
say line (out, r) = (line ∷ out, r)

-- versionString; debug.ReadBuildInfo gives the version, or there is none.
unfoldable pub version_string : Option Text → Text
version_string none = codes "gRPCat (unknown version)"
version_string (some version) =
    if is_empty version then codes "gRPCat (unknown version)" else codes "gRPCat " ++ version

-- The loop over -route.
unfoldable pub register_aloud : List Text → RouteMiddleware → Console RouteError RouteMiddleware
unfolding and_then add_route
register_aloud [] router = ([], ok router)
register_aloud (r ∷ rs) router = and_then (silently (parse_route r)) λ (service, backend).
    say (route_registered service backend) (register_aloud rs (add_route service backend router))

-- log.Fatal with an error of the loop.
abbrev pub exit_aloud {ℓ κ} : {E : Type κ} {A : Type ℓ} → (E → Exit) → Console E A → Console Exit A
exit_aloud f (out, r) = (out, exit_by f r)

-- The lines before Start.
unfoldable pub announce : Flags → List Output
announce f =
    starting_proxy
      ∷ listening_on f.listen
      ∷ backend_is f.backend
      ∷ (if is_empty f.tls_cert then [] else serving_tls_enabled ∷ [])
    ++ (if f.backend_tls then backend_tls_enabled ∷ [] else [])
    ++ (if f.verbose then verbose_enabled ∷ [] else [])
    ++ blank_line ∷ []

module _ (g : Grpc) (MD : Type 0) (certs : Certificates g) where
  pub routes_aloud : List Text → Server g MD → Console Exit (Server g MD)
  unfolding and_then register_aloud
  routes_aloud [] s = ([], ok s)
  routes_aloud (r ∷ rs) s =
      and_then (exit_aloud bad_route (register_aloud (r ∷ rs) new_route_middleware))
        λ router. silently (use_ok (route_handle router) s)

  -- main up to server.Start, given what debug.ReadBuildInfo knows.
  unfoldable pub main_aloud : Option Text → Flags → Console Exit (Server g MD)
  unfolding and_then version_string routes_aloud announce use_logging new_server build_proxy_config
  main_aloud version f =
      if f.version
      then (version_line (version_string version) ∷ [], err version_shown)
      else if is_empty f.backend
      then (banner ∷ [], err backend_required)
      else say banner (
          and_then (silently (exit_by bad_config (build_proxy_config g certs f))) λ config.
            and_then (silently (exit_by bad_server (new_server (some config)))) λ server.
              and_then (silently (use_logging g MD certs f server))
                λ logged. and_then (routes_aloud f.routes logged) λ routed. (announce f, ok routed))
