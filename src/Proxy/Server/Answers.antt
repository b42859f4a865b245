-- ===== src/Proxy/Server/Answers.antt =====
-- What an RPC is answered that is not forwarded, and that the handler returns.
use g_rpcat.Base.{
  ℕ, ◌≢◌, ◌≤◌, refl, List, Option, none, some, Outcome, ok, err, panic, ◌>>=◌, arith, length,
}
use g_rpcat.Base.Texts.{Text, codes}
use g_rpcat.Parser.Path.{PathError, invalid_path, parse_grpc_path}
use g_rpcat.Middleware.Metadata.{Metadata}
use g_rpcat.Middleware.Context.{RequestInfo, abort_index, codes_internal}
use g_rpcat.Middleware.Chain.{World, Run, Fault}
use g_rpcat.Middleware.Chain.Rules.{Ensures}
use g_rpcat.Middleware.Chain.Order.{Finished, next_call-Finished}
use g_rpcat.Middleware.Pool.{Context, acquire_context}
use g_rpcat.Proxy.Config.{Grpc}
use g_rpcat.Proxy.Forwarder.Errors.{Error, status}
use g_rpcat.Proxy.Server.{
  Server, Rpc, Reply, ends, Hook, finish, run_chain, with_frame, with_path, transparent_handler,
}

answered :
    {MD : Type 0} (P : World MD → Type 0) (r : Run MD) (reply : World MD → Reply MD) (f : Fault)
    → Ensures P r
    → (r >>= λ w. ok (reply w)) ≢ err f
answered P (ok w) reply f h e = cc
answered P (err x) reply f h e = absurd h
answered P panic reply f h e = cc

module _ {g : Grpc} {MD : Type 0} ⦃m : Metadata MD⦄ where
  run_chain_safe :
      (s : Server g MD) (send : List ℕ → Option Error) (i : ℕ) (pool : List (Context MD))
      (name : Text) (req : RequestInfo MD) (frame : Option (List ℕ)) (f : Fault)
      → length s.middlewares ≤ abort_index
      → run_chain s send i pool name req frame ≢ err f
  unfolding run_chain acquire_context
  run_chain_safe s send i pool name req frame f small =
      answered (Finished 0 (length s.middlewares)) _ (λ w. finish s send name frame w.state) f
        (next_call-Finished s.middlewares (acquire_context i (some req) s.middlewares pool).0.state
          small refl)

  with_frame_safe :
      (s : Server g MD) (hook : Hook MD) (send : List ℕ → Option Error) (i : ℕ)
      (pool : List (Context MD)) (name : Text) (req : RequestInfo MD)
      (first : Outcome Error (List ℕ)) (f : Fault)
      → length s.middlewares ≤ abort_index
      → with_frame s hook send i pool name req first ≢ err f
  unfolding with_frame
  with_frame_safe s hook send i pool name req panic f small = ground arith
  with_frame_safe s hook send i pool name req (ok frame) f small =
      run_chain_safe s send i pool name _ (some frame) f small
  with_frame_safe s hook send i pool name req (err x) f small =
      ground (arith, run_chain_safe s send i pool name req none f small)

  with_path_safe :
      (s : Server g MD) (hook : Hook MD) (send : List ℕ → Option Error) (i : ℕ)
      (pool : List (Context MD)) (rpc : Rpc MD) (name : Text) (r : Outcome PathError (Text × Text))
      (f : Fault)
      → length s.middlewares ≤ abort_index
      → with_path s hook send i pool rpc name r ≢ err f
  unfolding with_path
  with_path_safe s hook send i pool rpc name panic f small = ground arith
  with_path_safe s hook send i pool rpc name (err (invalid_path p)) f small = ground arith
  with_path_safe s hook send i pool rpc name (ok (service, method)) f small =
      with_frame_safe s hook send i pool name _ rpc.first_frame f small

  -- With a chain no longer than abortIndex the handler comes to a reply or a middleware, or a call
  -- of the libraries, panics: the loop of Next neither goes on for ever nor leaves its slice.
  pub transparent_handler_safe :
      (s : Server g MD) (hook : Hook MD) (send : List ℕ → Option Error) (i : ℕ)
      (pool : List (Context MD)) (rpc : Rpc MD) (f : Fault)
      → length s.middlewares ≤ abort_index
      → transparent_handler s hook send i pool rpc ≢ err f
  unfolding transparent_handler
  transparent_handler_safe s hook send i pool rpc f small = by_name rpc.full_method_name
    where
      by_name :
          (o : Option Text)
          → elim o [
            | none ↦ ok (
                ends (some (status codes_internal (codes "failed to get method name from stream"))))
            | some n ↦ with_path s hook send i pool rpc n (parse_grpc_path n)
          ]
            ≢ err f
      by_name none = ground arith
      by_name (some n) = with_path_safe s hook send i pool rpc n (parse_grpc_path n) f small
