-- ===== src/Proxy/Server/Pooled.antt =====
-- The handler and the pool of contexts: no RPC sees what others have left in it.
use g_rpcat.Base.{
  ℕ, ◌≡◌, refl, List, [], Option, none, some, Outcome, ok, err, panic, ◌>>=◌, All, ap,
}
use g_rpcat.Base.Texts.{Text, codes}
use g_rpcat.Parser.Path.{PathError, invalid_path, parse_grpc_path}
use g_rpcat.Middleware.Metadata.{Metadata}
use g_rpcat.Middleware.Context.{RequestInfo, codes_internal}
use g_rpcat.Middleware.Chain.{next_call}
use g_rpcat.Middleware.Pool.{Context, Use, use_pool}
use g_rpcat.Middleware.Pool.Isolation.{IsClean, use_pool-IsClean, acquire_context_any_pool}
use g_rpcat.Proxy.Config.{Grpc}
use g_rpcat.Proxy.Forwarder.Errors.{Error, status}
use g_rpcat.Proxy.Server.{
  Server, Rpc, Hook, finish, run_chain, with_frame, with_path, transparent_handler, ends,
}

module _ {g : Grpc} {MD : Type 0} ⦃m : Metadata MD⦄ (s : Server g MD) (hook : Hook MD)
    (send : List ℕ → Option Error) (i : ℕ) (pool : List (Context MD))
    (clean : All IsClean pool) where
  run_chain_any_pool :
      (name : Text) (req : RequestInfo MD) (frame : Option (List ℕ))
      → run_chain s send i pool name req frame ≡ run_chain s send 0 [] name req frame
  unfolding run_chain
  run_chain_any_pool name req frame =
      ap
        (λ c. next_call c.middlewares (record { state = c.state; log = [] }) >>= λ w.
          ok (finish s send name frame w.state))
        (acquire_context_any_pool i pool (some req) s.middlewares clean)

  with_frame_any_pool :
      (name : Text) (req : RequestInfo MD) (first : Outcome Error (List ℕ))
      → with_frame s hook send i pool name req first ≡ with_frame s hook send 0 [] name req first
  unfolding with_frame
  with_frame_any_pool name req panic = refl
  with_frame_any_pool name req (ok frame) = run_chain_any_pool name _ (some frame)
  with_frame_any_pool name req (err e) = rw (run_chain_any_pool name req none) refl

  with_path_any_pool :
      (rpc : Rpc MD) (name : Text) (r : Outcome PathError (Text × Text))
      → with_path s hook send i pool rpc name r ≡ with_path s hook send 0 [] rpc name r
  unfolding with_path
  with_path_any_pool rpc name panic = refl
  with_path_any_pool rpc name (err (invalid_path p)) = refl
  with_path_any_pool rpc name (ok (service, method)) = with_frame_any_pool name _ rpc.first_frame

module _ {g : Grpc} {MD : Type 0} ⦃m : Metadata MD⦄ where
  pub transparent_handler_clean_pool :
      (s : Server g MD) (hook : Hook MD) (send : List ℕ → Option Error) (i : ℕ)
      (pool : List (Context MD)) (clean : All IsClean pool) (rpc : Rpc MD)
      → transparent_handler s hook send i pool rpc ≡ transparent_handler s hook send 0 [] rpc
  unfolding transparent_handler
  transparent_handler_clean_pool s hook send i pool clean rpc = by_name rpc.full_method_name
    where
      by_name :
          (o : Option Text)
          → elim o [
            | none ↦ ok (
                ends (some (status codes_internal (codes "failed to get method name from stream"))))
            | some name ↦ with_path s hook send i pool rpc name (parse_grpc_path name)
          ]
            ≡ elim o [
              | none ↦ ok (
                  ends
                    (some (status codes_internal (codes "failed to get method name from stream"))))
              | some name ↦ with_path s hook send 0 [] rpc name (parse_grpc_path name)
            ]
      by_name none = refl
      by_name (some name) =
          with_path_any_pool s hook send i pool clean rpc name (parse_grpc_path name)

  -- What becomes of an RPC does not depend on the contexts that others have used before it: whatever
  -- was acquired, released with any contents and dropped, and whichever pooled context it is given,
  -- the handler does what it does with an empty pool.
  pub transparent_handler_any_pool :
      (s : Server g MD) (hook : Hook MD) (send : List ℕ → Option Error) (us : List (Use MD)) (i : ℕ)
      (rpc : Rpc MD)
      → transparent_handler s hook send i (use_pool us []) rpc
        ≡ transparent_handler s hook send 0 [] rpc
  transparent_handler_any_pool s hook send us i rpc =
      transparent_handler_clean_pool s hook send i (use_pool us []) (use_pool-IsClean us [] tt) rpc
