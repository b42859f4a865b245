-- ===== src/Proxy/Codec.antt =====
-- proxy/codec.go: frames, which hold references to the buffers of package mem, and ProxyCodec.
pub mod Ownership
pub mod Pumps
mod Tests
use g_rpcat.Base.{ℕ, List, [], ◌∷◌, ◌++◌, Option, none, some, Outcome, ok, err, panic}
use g_rpcat.Base.Texts.{Text}
use g_rpcat.Proxy.Mem.{Mem}

pub record Frame (m : Mem) : Type 0 where
  pub buffers : List m.Buffer

-- What the codec is handed: a frame, or any other message.
pub data Value (m : Mem) (V : Type 0) : Type 0 where
  frame : Frame m → Value m V
  message : V → Value m V

-- encoding.GetCodecV2(encproto.Name), with the numbers of its errors.
pub record ProtoCodec (m : Mem) (V : Type 0) : Type 0 where
  pub encode : V → Outcome ℕ (List m.Buffer)
  pub decode : List m.Buffer → V → Outcome ℕ V

module _ {m : Mem} where
  abbrev pub empty_frame : Frame m
  empty_frame = record { buffers = [] }

  unfoldable pub frame_from_bytes : List ℕ → Frame m
  frame_from_bytes b = record { buffers = m.slice_buffer b ∷ [] }

  -- Frame.Data, which is nil for an empty frame
  unfoldable pub frame_bytes : Frame m → Option (List ℕ)
  frame_bytes f = m.materialize f.buffers

  -- ParseAs, with the proto.Unmarshal that it calls; its error is wrapped.
  unfoldable pub parse_as : {V : Type 0} → (Option (List ℕ) → Outcome ℕ V) → Frame m → Outcome ℕ V
  parse_as unmarshal f = unmarshal (m.materialize f.buffers)

  -- Frame.Free, which clears the frame, and Reset
  unfoldable pub free : Frame m → m.Store → Frame m × m.Store
  free f s = (empty_frame, m.unref f.buffers s)

  unfoldable pub reset_frame : Frame m → m.Store → Frame m × m.Store
  unfolding free
  reset_frame f s = free f s

  module _ {V : Type 0} (proto : ProtoCodec m V) where
    -- ProxyCodec.Marshal: the slice that grpc gets has a reference of its own.
    unfoldable pub marshal : Value m V → m.Store → Outcome ℕ (List m.Buffer) × m.Store
    marshal (frame f) s = (ok f.buffers, m.ref f.buffers s)
    marshal (message v) s = (proto.encode v, s)

    decoded : V → Outcome ℕ V → Outcome ℕ (Value m V)
    decoded old (ok v) = ok (message v)
    decoded old (err e) = err e
    decoded old panic = panic

    -- ProxyCodec.Unmarshal into a value
    unfoldable pub unmarshal : List m.Buffer → Value m V → m.Store → Outcome ℕ (Value m V) × m.Store
    unfolding free decoded
    unmarshal bs (frame f) s =
        let (cleared, s') = free f s in (ok (frame (record cleared { buffers = bs })), m.ref bs s')
    unmarshal bs (message v) s = (decoded v (proto.decode bs v), s)
