-- ===== src/Proxy/Server/Handling.antt =====
-- When an RPC is forwarded, where to, and what an aborted one is answered.
use g_rpcat.Base.{
  ℕ, ◌≡◌, ◌≢◌, ◌≤◌, refl, sym, false, List, [], Option, none, some, Outcome, ok, err, panic, arith,
  length, range, >>=-eq-ok, inl, inr, subst,
}
use g_rpcat.Base.Texts.{Text, codes}
use g_rpcat.Parser.Path.{PathError, parse_grpc_path, invalid_path}
use g_rpcat.Middleware.Metadata.{Metadata}
use g_rpcat.Middleware.Context.{RequestInfo, State, is_aborted, abort_index, codes_internal}
use g_rpcat.Middleware.Chain.{Handler, World, next_call}
use g_rpcat.Middleware.Pool.{Context, acquire_context}
use g_rpcat.Middleware.Chain.Rules.{entered, Ensures}
use g_rpcat.Middleware.Chain.Order.{Finished, next_call-Finished}
use g_rpcat.Proxy.Config.{Grpc, Config}
use g_rpcat.Proxy.Forwarder.Errors.{Error, status}
use g_rpcat.Proxy.Server.{
  with_frame, with_path, Server, new_server, use_middleware, stop, Rpc, ends, forwards, Hook,
  metadata_of, finish, run_chain, transparent_handler,
}

-- The servers that there are: NewServer made them, Use and Stop changed them.
pub data IsMade {g : Grpc} {MD : Type 0} : Server g MD → Type 0 where
  made : (config : Option (Config g)) (s : Server g MD) → new_server config ≡ ok s → IsMade s
  used :
      (mw : Option (Handler MD)) (s t : Server g MD)
      → IsMade s
      → use_middleware mw s ≡ some t
      → IsMade t
  ended : (s : Server g MD) → IsMade s → IsMade (stop s)

default_backend_lem :
    {g : Grpc} {MD : Type 0} {s : Server g MD} → IsMade s → s.config.default_backend ≢ []
unfolding new_server use_middleware stop
default_backend_lem (made none s e) = ground arith
default_backend_lem (made (some config) s e) = ground arith
default_backend_lem (used none s t i e) = ground arith
default_backend_lem (used (some mw) s t i e) = ground (arith, default_backend_lem i)
default_backend_lem (ended s i) = ground (arith, default_backend_lem i)

-- The chain has been gone through when it was not aborted.
called_every :
    {MD : Type 0} (n : ℕ) (w : World MD)
    → Finished 0 n w
    → is_aborted w.state ≡ false
    → entered w.log ≡ range 0 n
unfolding is_aborted
called_every n w (k, (e, low, le), inl gone) h = cc
called_every n w (k, (e, low, le), inr (all, over)) h = rw (sym all) e

module _ {g : Grpc} {MD : Type 0} ⦃m : Metadata MD⦄ where
  finish-forwards :
      (s : Server g MD) (send : List ℕ → Option Error) (name : Text) (frame : Option (List ℕ))
      (c : State MD) {name' backend : Text} {md : Option MD} {frame' : Option (List ℕ)}
      → IsMade s
      → finish s send name frame c ≡ forwards name' backend md frame'
      → (is_aborted c ≡ false)
        × (name' ≡ name)
        × (backend ≢ [])
        × (md ≡ metadata_of c.request)
        × (frame' ≡ frame)
  unfolding finish
  finish-forwards s send name frame c i e = ground (arith, default_backend_lem i)

  -- What is true of an RPC that is forwarded, and of the world `w` in which the chain has ended.
  pub record Forwarded (s : Server g MD) (pool : List (Context MD)) (i : ℕ) (rpc : Rpc MD)
      (name backend : Text) (md : Option MD) (frame : Option (List ℕ)) : Type 0 where
    pub has_name : rpc.full_method_name ≡ some name
    pub req : RequestInfo MD
    pub has_path : parse_grpc_path name ≡ ok (req.service, req.method)
    pub has_backend : backend ≢ []
    pub w : World MD
    pub has_run :
        next_call s.middlewares
          (record { state = (acquire_context i (some req) s.middlewares pool).0.state; log = [] })
        ≡ ok w
    pub called_all : entered w.log ≡ range 0 (length s.middlewares)
    pub went_on : is_aborted w.state ≡ false
    pub has_metadata : md ≡ metadata_of w.state.request
    pub has_frame : frame ≡ elim rpc.first_frame [ ok f ↦ some f | err e ↦ none | panic ↦ none ]

  run_chain-forwards :
      (s : Server g MD) (send : List ℕ → Option Error) (i : ℕ) (pool : List (Context MD))
      (rpc : Rpc MD) (name : Text) (req : RequestInfo MD) (frame : Option (List ℕ))
      (name' backend : Text) (md : Option MD) (frame' : Option (List ℕ))
      → IsMade s
      → length s.middlewares ≤ abort_index
      → rpc.full_method_name ≡ some name
      → parse_grpc_path name ≡ ok (req.service, req.method)
      → (frame ≡ elim rpc.first_frame [ ok f ↦ some f | err e ↦ none | panic ↦ none ])
      → run_chain s send i pool name req frame ≡ ok (forwards name' backend md frame')
      → Forwarded s pool i rpc name' backend md frame'
  unfolding run_chain acquire_context
  run_chain-forwards s send i pool rpc name req frame name' backend md frame' from small named
        parsed framed e =
      let start : State MD = (acquire_context i (some req) s.middlewares pool).0.state in
      let (w, ran, done) =
        >>=-eq-ok (next_call s.middlewares (record { state = start; log = [] })) _ e in
      let replied : finish s send name frame w.state ≡ forwards name' backend md frame' =
        ground arith in
      let (kept, alike, full, carried, passed) =
        finish-forwards s send name frame w.state from replied in
      let over : Finished 0 (length s.middlewares) w =
        subst (Ensures (Finished 0 (length s.middlewares))) ran
          (next_call-Finished s.middlewares start small refl) in
      record {
        has_name = rw alike named;
        req = req;
        has_path = rw alike parsed;
        has_backend = full;
        w = w;
        has_run = ran;
        called_all = called_every (length s.middlewares) w over kept;
        went_on = kept;
        has_metadata = carried;
        has_frame = rw passed framed;
      }

  -- What every RPC of a handler's reply comes from.
  with_frame-forwards :
      (s : Server g MD) (hook : Hook MD) (send : List ℕ → Option Error) (i : ℕ)
      (pool : List (Context MD)) (rpc : Rpc MD) (name : Text) (req : RequestInfo MD)
      (first : Outcome Error (List ℕ)) (name' backend : Text) (md : Option MD)
      (frame : Option (List ℕ))
      → IsMade s
      → length s.middlewares ≤ abort_index
      → rpc.full_method_name ≡ some name
      → rpc.first_frame ≡ first
      → parse_grpc_path name ≡ ok (req.service, req.method)
      → with_frame s hook send i pool name req first ≡ ok (forwards name' backend md frame)
      → Forwarded s pool i rpc name' backend md frame
  unfolding with_frame
  with_frame-forwards s hook send i pool rpc name req panic n b md f from small named first parsed
        e =
      absurd (ground arith)
  with_frame-forwards s hook send i pool rpc name req (ok frame) n b md f from small named first
        parsed e =
      run_chain-forwards s send i pool rpc name _ (some frame) n b md f from small named parsed
        (rw first refl) e
  with_frame-forwards s hook send i pool rpc name req (err x) n b md f from small named first parsed
        e =
      run_chain-forwards s send i pool rpc name req none n b md f from small named parsed
        (rw first refl) (ground arith)

  -- A server that NewServer has made, whose chain is no longer than abortIndex, forwards an RPC only
  -- if its path can be split, after the chain has run over the context that was acquired for
  -- its service and method: every middleware was called once, in order, and none aborted. The backend is never
  -- empty, the metadata is that of the context's request, and the first frame is the one read.
  pub transparent_handler-Forwarded :
      (s : Server g MD) (hook : Hook MD) (send : List ℕ → Option Error) (i : ℕ)
      (pool : List (Context MD)) (rpc : Rpc MD) (name backend : Text) (md : Option MD)
      (frame : Option (List ℕ))
      → IsMade s
      → length s.middlewares ≤ abort_index
      → transparent_handler s hook send i pool rpc ≡ ok (forwards name backend md frame)
      → Forwarded s pool i rpc name backend md frame
  unfolding transparent_handler
  transparent_handler-Forwarded s hook send i pool rpc name backend md frame from small e =
      by_name rpc.full_method_name refl e
    where
      by_path :
          (n : Text) (r : Outcome PathError (Text × Text))
          → rpc.full_method_name ≡ some n
          → parse_grpc_path n ≡ r
          → with_path s hook send i pool rpc n r ≡ ok (forwards name backend md frame)
          → Forwarded s pool i rpc name backend md frame
      by_path n panic named parsed h = absurd (ground arith)
      by_path n (err (invalid_path p)) named parsed h = absurd (ground arith)
      by_path n (ok (service, method)) named parsed h =
          with_frame-forwards s hook send i pool rpc n _ rpc.first_frame name backend md frame from
            small named refl parsed h

      by_name :
          (o : Option Text)
          → rpc.full_method_name ≡ o
          → elim o [
            | none ↦ ok (
                ends (some (status codes_internal (codes "failed to get method name from stream"))))
            | some n ↦ with_path s hook send i pool rpc n (parse_grpc_path n)
          ]
            ≡ ok (forwards name backend md frame)
          → Forwarded s pool i rpc name backend md frame
      by_name none named h = absurd (ground arith)
      by_name (some n) named h = by_path n (parse_grpc_path n) named refl h
