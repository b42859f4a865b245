-- ===== src/Cmd/Startup/Forwarding.antt =====
-- The RPCs of the server that main starts, from the flags to the call of Forward.
use g_rpcat.Base.{
  ℕ, ◌≡◌, ◌≢◌, refl, Bool, true, false, List, [], ◌∷◌, Option, none, some, Outcome, ok, err, panic,
  arith, if◌then◌else◌, ap, ◌∙◌,
}
use g_rpcat.Base.Texts.{Text, is_empty}
use g_rpcat.Parser.Path.{parse_grpc_path}
use g_rpcat.Middleware.Metadata.{Metadata}
use g_rpcat.Middleware.Context.{RequestInfo, State, normalize_request, is_aborted, abort_index}
use g_rpcat.Middleware.Chain.{World, request_line, response_line, next_call}
use g_rpcat.Middleware.Pool.{Use, use_pool, pool_get, acquire_context}
use g_rpcat.Middleware.Pool.Isolation.{pool_get-IsClean, use_pool-IsClean}
use g_rpcat.Proxy.Config.{Grpc}
use g_rpcat.Proxy.Forwarder.Errors.{Error, is_eof}
use g_rpcat.Proxy.Server.{
  Server, Rpc, Hook, forwards, finish, run_chain, with_frame, with_path, transparent_handler,
}
use g_rpcat.Cmd.Route.{RouteMiddleware}
use g_rpcat.Cmd.Main.{Flags, Certificates}
use g_rpcat.Cmd.Startup.{start_up}
use g_rpcat.Cmd.Startup.Chosen.{last_route, start_up_lem}
use g_rpcat.Cmd.Startup.Routed.{
  Gives, backend_of, last_route-full, chosen_lem, flag_chain_lem, routes_lem, flag_chain, lines,
  chosen, left, next_call-flag_chain,
}

-- What of the first frame is passed on: the frame that was read, or none at the end of the stream.
abbrev pub Arrives : Outcome Error (List ℕ) → Option (List ℕ) → Type 0
Arrives (ok f) o = o ≡ some f
Arrives (err e) o = (is_eof e ≡ true) × (o ≡ none)
Arrives panic o = ⊥

module _ {MD : Type 0} ⦃m : Metadata MD⦄ where
  abbrev pub metadata_for : Option MD → MD
  metadata_for none = m.empty
  metadata_for (some md) = md

  normal_request :
      (req : RequestInfo MD)
      → ((normalize_request (some req)).service ≡ req.service)
        × ((normalize_request (some req)).method ≡ req.method)
        × ((normalize_request (some req)).metadata ≡ some (metadata_for req.metadata))
  unfolding normalize_request
  normal_request req = ground arith

  -- The chain over a pooled context.
  next_call-acquire_context :
      (us : List (Use MD)) (i : ℕ) (v : Bool) (o : Option RouteMiddleware) (req : RequestInfo MD)
      → (st : State MD) × (st.backend ≡ [])
        × (next_call (flag_chain v o) (record {
          state = (acquire_context i (some req) (flag_chain v o) (use_pool us [])).0.state;
          log = [];
        })
            ≡ ok (left v o (normalize_request (some req)) st))
  unfolding acquire_context
  next_call-acquire_context us i v o req =
      let clean = (pool_get-IsClean i (use_pool us []) (use_pool-IsClean us [] tt)).0 in
      let st = (pool_get i (use_pool us [])).0.state in
      (st, clean.no_backend, next_call-flag_chain v o (normalize_request (some req)) st)

  left-is_aborted :
      (v : Bool) (o : Option RouteMiddleware) (req : RequestInfo MD) (st : State MD)
      → is_aborted (left v o req st).state ≡ false
  unfolding is_aborted abort_index
  left-is_aborted true none req st = refl
  left-is_aborted true (some router) req st = refl
  left-is_aborted false none req st = refl
  left-is_aborted false (some router) req st = refl

  left-lines :
      (v : Bool) (o : Option RouteMiddleware) (req : RequestInfo MD) (st : State MD)
      → lines (left v o req st).log ≡ (
          if v
          then request_line req.service req.method ∷ response_line req.service req.method ∷ []
          else [])
  left-lines true none req st = refl
  left-lines true (some router) req st = refl
  left-lines false none req st = refl
  left-lines false (some router) req st = refl

module _ {g : Grpc} {MD : Type 0} ⦃m : Metadata MD⦄ where
  finish-left :
      (s : Server g MD) (send : List ℕ → Option Error) (name : Text) (frame : Option (List ℕ))
      (v : Bool) (o : Option RouteMiddleware) (req : RequestInfo MD) (st : State MD)
      → st.backend ≡ []
      → let c = chosen o req.service [] in
        finish s send name frame (left v o req st).state
        ≡ forwards name (if is_empty c then s.config.default_backend else c) req.metadata frame
  unfolding finish
  finish-left s send name frame v o req st empty = rw (left-is_aborted v o req st, empty) refl

  run_chain_lem :
      (s : Server g MD) (send : List ℕ → Option Error) (us : List (Use MD)) (i : ℕ) (name : Text)
      (req : RequestInfo MD) (frame : Option (List ℕ)) (v : Bool) (o : Option RouteMiddleware)
      (l : Option Text)
      → s.middlewares ≡ flag_chain v o
      → Gives o req.service l
      → ((b : Text) → l ≡ some b → b ≢ [])
      → run_chain s send i (use_pool us []) name req frame
        ≡ ok (
            forwards name
              (backend_of l s.config.default_backend)
              (some (metadata_for req.metadata))
              frame)
  unfolding run_chain acquire_context
  run_chain_lem s send us i name req frame v o l e gives full =
      let (st, empty, ran) = next_call-acquire_context us i v o req in
      let (same_service, same_method, same_metadata) = normal_request req in
      let req' = normalize_request (some req) in
      let backend = chosen_lem o req.service s.config.default_backend l full gives in
      rw (e, ran)
        (ap ok (
          finish-left s send name frame v o req' st empty
          ∙ (rw (same_service, backend, same_metadata) refl)))

  with_frame_lem :
      (s : Server g MD) (hook : Hook MD) (send : List ℕ → Option Error) (us : List (Use MD)) (i : ℕ)
      (name : Text) (req : RequestInfo MD) (first : Outcome Error (List ℕ))
      (frame : Option (List ℕ)) (v : Bool) (o : Option RouteMiddleware) (l : Option Text)
      → s.middlewares ≡ flag_chain v o
      → Gives o req.service l
      → ((b : Text) → l ≡ some b → b ≢ [])
      → Arrives first frame
      → with_frame s hook send i (use_pool us []) name req first
        ≡ ok (
            forwards name
              (backend_of l s.config.default_backend)
              (some (metadata_for req.metadata))
              frame)
  unfolding with_frame
  with_frame_lem s hook send us i name req panic frame v o l e gives full h = absurd h
  with_frame_lem s hook send us i name req (ok f) frame v o l e gives full h =
      rw h (run_chain_lem s send us i name _ (some f) v o l e gives full)
  with_frame_lem s hook send us i name req (err x) frame v o l e gives full (at_end, h) =
      rw (at_end, h) (run_chain_lem s send us i name req none v o l e gives full)

  handler_lem :
      (s : Server g MD) (hook : Hook MD) (send : List ℕ → Option Error) (us : List (Use MD)) (i : ℕ)
      (rpc : Rpc MD) (name service method : Text) (frame : Option (List ℕ)) (v : Bool)
      (o : Option RouteMiddleware) (l : Option Text)
      → s.middlewares ≡ flag_chain v o
      → Gives o service l
      → ((b : Text) → l ≡ some b → b ≢ [])
      → rpc.full_method_name ≡ some name
      → parse_grpc_path name ≡ ok (service, method)
      → Arrives rpc.first_frame frame
      → transparent_handler s hook send i (use_pool us []) rpc
        ≡ ok (
            forwards name
              (backend_of l s.config.default_backend)
              (some (metadata_for rpc.metadata))
              frame)
  unfolding transparent_handler with_path
  handler_lem s hook send us i rpc name service method frame v o l e gives full named parsed h =
      rw (named, parsed)
        (with_frame_lem s hook send us i name _ rpc.first_frame frame v o l e gives full h)

module _ (g : Grpc) (MD : Type 0) ⦃m : Metadata MD⦄ (certs : Certificates g) where
  -- The server that main starts forwards every RPC whose path splits and whose first frame is read
  -- or is the end of the stream, whatever the pool of contexts has been used for: to the backend of
  -- the last -route value for its service, or that of -backend if there is none, with the RPC's
  -- metadata, empty for nil. With -v its chain prints a line for the request and then one for the
  -- response, and without -v none.
  pub start_up-forwards :
      (f : Flags) (s : Server g MD) (hook : Hook MD) (send : List ℕ → Option Error)
      (us : List (Use MD)) (i : ℕ) (rpc : Rpc MD) (name service method : Text)
      (frame : Option (List ℕ))
      → start_up g MD certs f ≡ ok s
      → rpc.full_method_name ≡ some name
      → parse_grpc_path name ≡ ok (service, method)
      → Arrives rpc.first_frame frame
      → (transparent_handler s hook send i (use_pool us []) rpc
          ≡ ok (
              forwards name
                (backend_of (last_route service f.routes none) f.backend)
                (some (metadata_for rpc.metadata))
                frame))
        × ((req : RequestInfo MD)
            → (w : World MD) × (next_call s.middlewares (record {
              state = (acquire_context i (some req) s.middlewares (use_pool us [])).0.state;
              log = [];
            })
                ≡ ok w)
              × (lines w.log ≡ (
                  if f.verbose
                  then request_line req.service req.method
                    ∷ response_line req.service req.method
                    ∷ []
                  else [])))
  start_up-forwards f s hook send us i rpc name service method frame started named parsed h =
      let (default, _, (router, chained, routes)) = start_up_lem g MD certs f s started in
      let o = if is_empty f.routes then none else some router in
      let e = chained ∙ flag_chain_lem f.verbose f.routes router in
      (
        rw (← default) (
            handler_lem s hook send us i rpc name service method frame f.verbose o
              (last_route service f.routes none) e
              (routes_lem f.routes router service (routes service))
              (last_route-full service f.routes none (λ b x. cc)) named parsed h),
        λ req.
            let (st, _, ran) = next_call-acquire_context us i f.verbose o req in
            let req' = normalize_request (some req) in
            let (same_service, same_method, _) = normal_request req in
            (
              left f.verbose o req' st,
              rw e ran,
              rw (left-lines f.verbose o req' st, same_service, same_method) refl,
            ),
      )
