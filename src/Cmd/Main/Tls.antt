-- ===== src/Cmd/Main/Tls.antt =====
-- The TLS flags are honoured or refused, never ignored.
use g_rpcat.Base.{
  ◌≡◌, sym, ◌≢◌, ◌⊎◌, true, false, List, [], ◌∷◌, Option, none, some, ok, arith, >>=-eq-ok, subst,
}
use g_rpcat.Proxy.Config.{Grpc, Config}
use g_rpcat.Cmd.Main.{Flags, Certificates, build_proxy_config, serving_options, backend_creds}

module _ (g : Grpc) (certs : Certificates g) where
  -- The serving side: plaintext without the two flags, and their certificate with them.
  abbrev pub Serves : Flags → List g.ServerOption → Type 0
  Serves f options =
      ((f.tls_cert ≡ []) × (f.tls_key ≡ []) × (options ≡ []))
      ⊎ ((creds : g.ServerOption) × (f.tls_cert ≢ [])
          × (f.tls_key ≢ [])
          × (certs.server_creds f.tls_cert f.tls_key ≡ ok creds)
          × (options ≡ creds ∷ []))

  -- The backend side: plaintext without -backend-tls, and TLS with the named CA or the system's.
  abbrev pub Dials : Flags → Option g.Creds → Type 0
  Dials f creds =
      ((f.backend_tls ≡ false) × (f.backend_ca ≡ []) × (creds ≡ none))
      ⊎ (((f.backend_tls ≡ true) × (f.backend_ca ≡ []) × (creds ≡ some certs.system_creds))
          ⊎ ((c : g.Creds) × (f.backend_tls ≡ true)
              × (f.backend_ca ≢ [])
              × (certs.client_creds f.backend_ca ≡ ok c)
              × (creds ≡ some c)))

  serving_options-Serves :
      (f : Flags) (options : List g.ServerOption)
      → serving_options g certs f ≡ ok options
      → Serves f options
  unfolding serving_options
  serving_options-Serves f options e = ground arith

  backend_creds-Dials :
      (f : Flags) (creds : Option g.Creds) → backend_creds g certs f ≡ ok creds → Dials f creds
  unfolding backend_creds
  backend_creds-Dials f creds e = ground arith

  -- A configuration that is built serves plaintext only if neither -tls-cert nor -tls-key is given
  -- and otherwise with the certificate of both; it dials plaintext only if neither -backend-tls nor
  -- -backend-ca is given, and otherwise over TLS, with the CA of -backend-ca if that is given.
  pub build_proxy_config-secure :
      (f : Flags) (cfg : Config g)
      → build_proxy_config g certs f ≡ ok cfg
      → Serves f cfg.server_options × Dials f cfg.backend_transport_creds
  unfolding build_proxy_config
  build_proxy_config-secure f cfg e =
      let (options, served, e') = >>=-eq-ok (serving_options g certs f) _ e in
      let (creds, dialled, e'') = >>=-eq-ok (backend_creds g certs f) _ e' in
      let same_options : cfg.server_options ≡ options = cc in
      let same_creds : cfg.backend_transport_creds ≡ creds = cc in
      (
        subst (Serves f) (sym same_options) (serving_options-Serves f options served),
        subst (Dials f) (sym same_creds) (backend_creds-Dials f creds dialled),
      )

  -- No configuration is built from one of -tls-cert and -tls-key without the other, or from
  -- -backend-ca without -backend-tls.
  build_proxy_config-refuses :
      (f : Flags)
      → (((f.tls_cert ≡ []) × (f.tls_key ≢ [])) ⊎ ((f.tls_cert ≢ []) × (f.tls_key ≡ [])))
        ⊎ ((f.backend_tls ≡ false) × (f.backend_ca ≢ []))
      → (cfg : Config g) → build_proxy_config g certs f ≢ ok cfg
  build_proxy_config-refuses f bad cfg e =
      let (serves, dials) = build_proxy_config-secure f cfg e in ground arith

  pub build_proxy_config-backend :
      (f : Flags) (cfg : Config g)
      → build_proxy_config g certs f ≡ ok cfg
      → cfg.default_backend ≡ f.backend
  unfolding build_proxy_config
  build_proxy_config-backend f cfg e =
      let (options, served, rest) = >>=-eq-ok (serving_options g certs f) _ e in
      let (creds, dialled, done) = >>=-eq-ok (backend_creds g certs f) _ rest in ground arith
