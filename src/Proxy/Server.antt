-- ===== src/Proxy/Server.antt =====
-- proxy/server.go: the server, and its handler of every RPC up to the forwarding of the streams.
pub mod Handling
pub mod Answers
pub mod Pooled
pub mod Snapshots
mod Tests
use g_rpcat.Base.{
  ℕ, Bool, true, false, not, ◌&&◌, List, [], ◌∷◌, ◌++◌, map, Option, none, some, Outcome, ok, err,
  panic, ◌>>=◌, or_panic, if◌then◌else◌, ◌==◌,
}
use g_rpcat.Base.Int.{ℤ, pos}
use g_rpcat.Base.Texts.{Text, codes, is_empty}
use g_rpcat.Parser.Path.{PathError, invalid_path, parse_grpc_path}
use g_rpcat.Middleware.Metadata.{Metadata}
use g_rpcat.Middleware.Context.{
  RequestInfo, ResponseInfo, State, is_aborted, codes_ok, codes_internal,
}
use g_rpcat.Middleware.Chain.{Handler, World, Run, Fault, next_call}
use g_rpcat.Middleware.Pool.{Context, acquire_context}
use g_rpcat.Proxy.Config.{Grpc, Config, resolve_msg_size}
use g_rpcat.Proxy.Cache.{Cache, new_connection_cache, start_sweeper, close}
use g_rpcat.Proxy.Forwarder.Errors.{Error, eof, status, other, formatted, is_eof, is_status}

-- The options that NewServer makes, and those of the configuration.
pub data ServerArgument (g : Grpc) : Type 0 where
  force_proxy_codec unknown_service_handler : ServerArgument g
  max_recv_size max_send_size : ℕ → ServerArgument g
  given : g.ServerOption → ServerArgument g

-- A Server; `arguments` is what its grpc.Server was made with.
pub record Server (g : Grpc) (MD : Type 0) : Type 0 where
  pub config : Config g
  pub middlewares : List (Handler MD)
  pub arguments : List (ServerArgument g)
  pub cache : Cache g
  pub stopped : Bool

pub data ServerError : Type 0 where
  nil_config no_default_backend : ServerError

module _ {g : Grpc} {MD : Type 0} where
  unfoldable pub new_server : Option (Config g) → Outcome ServerError (Server g MD)
  unfolding start_sweeper new_connection_cache
  new_server none = err nil_config
  new_server (some config) =
      let recv = resolve_msg_size config.max_recv_msg_size in
      let send = resolve_msg_size config.max_send_msg_size in
      let cache : Cache g =
        new_connection_cache config.keepalive_params config.backend_transport_creds
          config.backend_dial_options in
      if is_empty config.default_backend
      then err no_default_backend
      else ok (record {
        config = config;
        middlewares = [];
        arguments =
            force_proxy_codec
            ∷ unknown_service_handler
            ∷ max_recv_size recv
            ∷ max_send_size send
            ∷ map given config.server_options;
        cache = start_sweeper (record cache {
          config = record cache.config {
            max_recv_msg_size = pos recv;
            max_send_msg_size = pos send;
            idle_timeout = config.backend_idle_timeout;
          };
        });
        stopped = false;
      })

  -- Use, which panics on nil.
  unfoldable pub use_middleware : Option (Handler MD) → Server g MD → Option (Server g MD)
  use_middleware none s = none
  use_middleware (some mw) s = some (record s { middlewares = s.middlewares ++ mw ∷ [] })

  -- Stop, once GracefulStop has returned
  unfoldable pub stop : Server g MD → Server g MD
  unfolding close
  stop s = if s.stopped then s else record s { stopped = true; cache = close s.cache }

-- status.Errorf, which is no error for the code OK
unfoldable pub status_error : ℕ → Text → Option Error
status_error code msg = if code == codes_ok then none else some (status code msg)

-- handleAborted, given what SendMsg of some data returns
unfoldable pub handle_aborted : {MD : Type 0} → (List ℕ → Option Error) → State MD → Option Error
unfolding status_error
handle_aborted send c = elim c.response [
  | none ↦ some (status codes_internal (codes "middleware aborted without response"))
  | some r ↦ elim r.bytes [
    | some b ↦ elim (send b) [
      | none ↦ none
      | some e ↦ some (formatted codes_internal (codes "failed to send response") e)
    ]
    | none ↦ status_error r.code (if is_empty r.msg then codes "request aborted" else r.msg)
  ]
]

-- An RPC as the handler finds it: its path, its metadata and what RecvMsg of its first frame gives.
pub record Rpc (MD : Type 0) : Type 0 where
  pub full_method_name : Option Text
  pub metadata : Option MD
  pub first_frame : Outcome Error (List ℕ)

-- What becomes of an RPC: it ends with an error or without, or Forward is called with a backend,
-- metadata and the first frame.
pub data Reply (MD : Type 0) : Type 0 where
  ends : Option Error → Reply MD
  forwards : Text → Text → Option MD → Option (List ℕ) → Reply MD

abbrev pub codes_invalid_argument : ℕ
codes_invalid_argument = 3

-- Hooks.OnFirstFrameError, `none` when it is not set
abbrev pub Hook : Type 0 → Type 0
Hook MD = Option (RequestInfo MD → Error → Option Error)

-- The answer to a first frame that could not be read.
unfoldable pub first_frame_error : {MD : Type 0} → Hook MD → RequestInfo MD → Error → Error
first_frame_error hook req e =
    let fallback : Error =
      if is_status e then e else formatted codes_internal (codes "failed to read first frame") e in
    elim hook [
      | none ↦ fallback
      | some f ↦ elim (f req e) [ none ↦ fallback | some hook_error ↦ hook_error ]
    ]

abbrev pub metadata_of : {MD : Type 0} → Option (RequestInfo MD) → Option MD
metadata_of none = none
metadata_of (some req) = req.metadata

module _ {g : Grpc} {MD : Type 0} ⦃m : Metadata MD⦄ where
  -- What follows the chain. The context shares the request with the handler.
  unfoldable pub finish :
      Server g MD → (List ℕ → Option Error) → Text → Option (List ℕ) → State MD → Reply MD
  unfolding is_aborted handle_aborted
  finish s send name frame c =
      if is_aborted c
      then ends (handle_aborted send c)
      else forwards name (if is_empty c.backend then s.config.default_backend else c.backend)
          (metadata_of c.request) frame

  -- The chain over a context of the pool, of which `i` and `pool` say which one is taken.
  unfoldable pub run_chain :
      Server g MD
      → (List ℕ → Option Error)
      → ℕ
      → List (Context MD)
      → Text
      → RequestInfo MD
      → Option (List ℕ)
      → Outcome Fault (Reply MD)
  unfolding acquire_context next_call finish
  run_chain s send i pool name req frame =
      let c = (acquire_context i (some req) s.middlewares pool).0 in
      next_call c.middlewares (record { state = c.state; log = [] }) >>= λ w.
      ok (finish s send name frame w.state)

  -- The handler once the path is split, with what RecvMsg of the first frame gives; the payload of
  -- an empty frame is nil.
  unfoldable pub with_frame :
      Server g MD
      → Hook MD
      → (List ℕ → Option Error)
      → ℕ
      → List (Context MD)
      → Text
      → RequestInfo MD
      → Outcome Error (List ℕ)
      → Outcome Fault (Reply MD)
  unfolding run_chain first_frame_error
  with_frame s hook send i pool name req panic = panic
  with_frame s hook send i pool name req (ok frame) =
      run_chain s send i pool name
        (record req { first_payload = if is_empty frame then none else some frame }) (some frame)
  with_frame s hook send i pool name req (err e) =
      if is_eof e
      then run_chain s send i pool name req none
      else ok (ends (some (first_frame_error hook req e)))

  -- The handler with the result of ParseGRPCPath.
  unfoldable pub with_path :
      Server g MD
      → Hook MD
      → (List ℕ → Option Error)
      → ℕ
      → List (Context MD)
      → Rpc MD
      → Text
      → Outcome PathError (Text × Text)
      → Outcome Fault (Reply MD)
  unfolding with_frame
  with_path s hook send i pool rpc name panic = panic
  with_path s hook send i pool rpc name (err (invalid_path p)) = ok (
      ends (
        some (
          status codes_invalid_argument
            (codes "invalid method name: invalid gRPC path format: " ++ p))))
  with_path s hook send i pool rpc name (ok (service, method)) =
      with_frame s hook send i pool name
        (record {
          service = service;
          method = method;
          metadata = rpc.metadata;
          first_payload = none;
        })
        rpc.first_frame

  -- The handler of TransparentHandler.
  unfoldable pub transparent_handler :
      Server g MD
      → Hook MD
      → (List ℕ → Option Error)
      → ℕ
      → List (Context MD)
      → Rpc MD
      → Outcome Fault (Reply MD)
  unfolding with_path
  transparent_handler s hook send i pool rpc = elim rpc.full_method_name [
    | none ↦
        ok (ends (some (status codes_internal (codes "failed to get method name from stream"))))
    | some name ↦ with_path s hook send i pool rpc name (parse_grpc_path name)
  ]
