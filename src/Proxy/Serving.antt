-- ===== src/Proxy/Serving.antt =====
-- One RPC from its first frame to its end: the handler of proxy/server.go, Forward of
-- proxy/forwarder.go and the cache and frame that they use, with what their deferred calls give
-- back. No other RPC takes a step in between; for those see Cache.Pinning.
pub mod Released
mod Tests
use g_rpcat.Base.{
  ℕ, Bool, true, false, List, [], ◌∷◌, ◌++◌, Option, none, some, Outcome, ok, err, panic,
  if◌then◌else◌,
}
use g_rpcat.Base.Texts.{Text}
use g_rpcat.Middleware.Metadata.{Metadata}
use g_rpcat.Middleware.Chain.{Fault}
use g_rpcat.Middleware.Pool.{Context}
use g_rpcat.Proxy.Config.{Grpc}
use g_rpcat.Proxy.Cache.{Cache, Dialer, acquire, release}
use g_rpcat.Proxy.Mem.{Mem}
use g_rpcat.Proxy.Codec.Ownership.{FrameUse, frees, marshals, unmarshals}
use g_rpcat.Proxy.Forwarder.{start_forward, call_subtype, outgoing}
use g_rpcat.Proxy.Forwarder.Errors.{Error, other}
use g_rpcat.Proxy.Server.{Server, Rpc, Reply, ends, forwards, Hook, transparent_handler}

-- What the libraries do for the RPC: the pooled context, the times that are read, the calls of grpc,
-- whether SendMsg of the first frame comes as far as the codec, and what the loop of Forward returns.
pub record Environment (g : Grpc) (MD : Type 0) : Type 0 where
  pub hook : Hook MD
  pub pick : ℕ
  pub pool : List (Context MD)
  pub now : ℕ
  pub later : ℕ
  pub end : ℕ
  pub dial : Dialer g
  pub new_stream : Option Text → Option MD → Option Error
  pub send_frame : List ℕ → Option Error
  pub marshalled : Bool
  pub send_response : List ℕ → Option Error
  pub outcome : Option Error

-- The result of the handler, the cache, and what was done with the first frame.
pub record Served (g : Grpc) (m : Mem) : Type 0 where
  pub result : Outcome Fault (Option Error)
  pub cache : Cache g
  pub uses : List (FrameUse m)

-- The error that acquire gives.
abbrev pub dial_error : Outcome ℕ ℕ → Outcome Error ℕ
dial_error (ok i) = ok i
dial_error (err n) = err (other n)
dial_error panic = panic

-- Whether Forward comes to have a stream to the backend.
abbrev pub has_stream : Outcome ℕ ℕ → Option Error → Bool
has_stream (ok i) none = true
has_stream (ok i) (some e) = false
has_stream (err n) r = false
has_stream panic r = false

-- What Forward does with the first frame: with a stream it is sent, if there is one.
abbrev pub forward_uses : {m : Mem} → Bool → Bool → Option (List ℕ) → List (FrameUse m)
forward_uses false marshalled frame = []
forward_uses true marshalled none = []
forward_uses true true (some f) = marshals ∷ []
forward_uses true false (some f) = []

-- What RecvMsg has put into the frame, if it came to that.
abbrev pub fills : {m : Mem} → Option (List m.Buffer) → List (FrameUse m)
fills none = []
fills (some bs) = unmarshals bs ∷ []

module _ {g : Grpc} {MD : Type 0} ⦃md : Metadata MD⦄ where
  -- Forward behind acquire; release is deferred when there is an entry.
  unfoldable pub forward_with :
      Environment g MD
      → Outcome ℕ ℕ
      → Outcome Error ℕ
      → Cache g
      → Outcome Fault (Option Error) × Cache g
  unfolding release
  forward_with env (ok i) (ok j) c = (ok env.outcome, release env.end i c)
  forward_with env (ok i) (err e) c = (ok (some e), release env.end i c)
  forward_with env (ok i) panic c = (panic, release env.end i c)
  forward_with env (err n) (ok j) c = (ok env.outcome, c)
  forward_with env (err n) (err e) c = (ok (some e), c)
  forward_with env (err n) panic c = (panic, c)
  forward_with env panic r c = (panic, c)

  module _ {m : Mem} where
    unfoldable pub forward :
        Environment g MD → Text → Option MD → Option (List ℕ) → Cache g → Served g m
    unfolding forward_with acquire start_forward call_subtype outgoing
    forward env backend meta frame c =
        let (found, d) = acquire env.dial env.now env.later backend c in
        let (r, d') =
          forward_with env found
            (start_forward (dial_error found) env.new_stream env.send_frame meta frame) d in
        let made = has_stream found (env.new_stream (call_subtype meta) (outgoing meta)) in
        record { result = r; cache = d'; uses = forward_uses made env.marshalled frame }

    -- The handler after RecvMsg, with its reply; firstFrame.Free is deferred. A path that is refused
    -- leaves the frame empty, and Free does nothing then.
    unfoldable pub serve_reply : Environment g MD → Outcome Fault (Reply MD) → Cache g → Served g m
    unfolding forward
    serve_reply env (ok (ends e)) c = record { result = ok e; cache = c; uses = frees ∷ [] }
    serve_reply env (ok (forwards name backend meta frame)) c =
        let served = forward env backend meta frame c in
        record served { uses = served.uses ++ frees ∷ [] }
    serve_reply env (err f) c = record { result = err f; cache = c; uses = frees ∷ [] }
    serve_reply env panic c = record { result = panic; cache = c; uses = frees ∷ [] }

    -- The whole handler, for an RPC whose first frame holds these buffers.
    unfoldable pub serve_rpc :
        Server g MD → Environment g MD → Rpc MD → Option (List m.Buffer) → Cache g → Served g m
    unfolding serve_reply transparent_handler
    serve_rpc s env rpc filled c =
        let served =
          serve_reply env (transparent_handler s env.hook env.send_response env.pick env.pool rpc)
            c in
        record served { uses = fills filled ++ served.uses }
