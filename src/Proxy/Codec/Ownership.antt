-- ===== src/Proxy/Codec/Ownership.antt =====
-- The references of a frame are balanced, and what it was filled with is what it is sent with.
use g_rpcat.Base.{
  ℕ, ◌+◌, ◌≡◌, refl, List, [], ◌∷◌, ◌++◌, none, some, Outcome, ok, err, panic, arith, append-nil,
  if◌then◌else◌,
}
use g_rpcat.Base.Texts.{is_empty}
use g_rpcat.Proxy.Mem.{Mem}
use g_rpcat.Proxy.Codec.{
  Frame, Value, frame, message, ProtoCodec, frame_from_bytes, frame_bytes, free, marshal, unmarshal,
}

-- What is done with one frame: Free, a SendMsg or a RecvMsg, as far as the codec goes.
pub data FrameUse (m : Mem) : Type 0 where
  frees : FrameUse m
  marshals : FrameUse m
  unmarshals : List m.Buffer → FrameUse m

-- The frame, the counts, and the buffers that grpc was handed, which it frees on its own.
pub record Held (m : Mem) : Type 0 where
  pub frame : Frame m
  pub store : m.Store
  pub handed : List m.Buffer

frame_bytes-frame_from_bytes :
    (m : Mem) (d : List ℕ)
    → frame_bytes (frame_from_bytes {m = m} d) ≡ (if is_empty d then none else some d)
unfolding frame_bytes frame_from_bytes
frame_bytes-frame_from_bytes m [] =
    rw (m.materialize-cons (m.slice_buffer []) [], m.bytes-slice_buffer []) m.materialize-nil
frame_bytes-frame_from_bytes m (c ∷ d) =
    rw
      (
        m.materialize-cons (m.slice_buffer (c ∷ d)) [],
        m.bytes-slice_buffer (c ∷ d),
        m.materialize-nil,
      )
      (rw (append-nil d) refl)

module _ {m : Mem} {V : Type 0} (proto : ProtoCodec m V) where
  -- The frame that Unmarshal leaves, and the slice that Marshal gives: a frame never fails.
  abbrev pub the_frame : Frame m → Outcome ℕ (Value m V) → Frame m
  the_frame old (ok (frame f)) = f
  the_frame old (ok (message v)) = old
  the_frame old (err e) = old
  the_frame old panic = old

  abbrev pub the_slice : Outcome ℕ (List m.Buffer) → List m.Buffer
  the_slice (ok bs) = bs
  the_slice (err e) = []
  the_slice panic = []

  unfoldable pub use_frame : FrameUse m → Held m → Held m
  unfolding free marshal unmarshal
  use_frame frees h = let (f, s) = free h.frame h.store in record h { frame = f; store = s }
  use_frame marshals h =
      let (bs, s) = marshal proto (frame h.frame) h.store in
      record h { store = s; handed = the_slice bs ++ h.handed }
  use_frame (unmarshals bs) h =
      let (v, s) = unmarshal proto bs (frame h.frame) h.store in
      record h { frame = the_frame h.frame v; store = s }

  unfoldable pub use_frames : List (FrameUse m) → Held m → Held m
  unfolding use_frame
  use_frames [] h = h
  use_frames (u ∷ us) h = use_frames us (use_frame u h)

  -- Every reference to a buffer is the frame's, or of the buffers that grpc was handed, or one of
  -- the `others`.
  abbrev pub IsBalanced : (m.Buffer → ℕ) → Held m → Type 0
  IsBalanced others h =
      (b : m.Buffer)
      → m.references h.store b
        ≡ others b + m.occurrences b h.handed + m.occurrences b h.frame.buffers

  free-references :
      (others : m.Buffer → ℕ) (h : Held m) (b : m.Buffer)
      → IsBalanced others h
      → m.references (m.unref h.frame.buffers h.store) b ≡ others b + m.occurrences b h.handed
  free-references others h b i =
      omega (arith, i b, m.references-unref b h.frame.buffers h.store (omega (arith, i b)))

  use_frame-IsBalanced :
      (others : m.Buffer → ℕ) (u : FrameUse m) (h : Held m)
      → IsBalanced others h
      → IsBalanced others (use_frame u h)
  unfolding use_frame
  use_frame-IsBalanced others frees h i b =
      omega (arith, free-references others h b i, m.occurrences-nil b)
  use_frame-IsBalanced others marshals h i b = omega (
    arith,
    i b,
    m.references-ref b h.frame.buffers h.store,
    m.occurrences-append b h.frame.buffers h.handed,
  )
  use_frame-IsBalanced others (unmarshals bs) h i b =
      omega (
        arith,
        free-references others h b i,
        m.references-ref b bs (m.unref h.frame.buffers h.store),
      )

  -- Whatever messages a frame is filled with, sent and freed with, in any order, if its references
  -- were balanced before: the references to each buffer are still those of the others, of what grpc
  -- was handed for sending, and of the frame as it is; freeing it then leaves the first two.
  pub use_frames-IsBalanced :
      (others : m.Buffer → ℕ) (us : List (FrameUse m)) (h : Held m)
      → IsBalanced others h
      → IsBalanced others (use_frames us h)
        × ((b : m.Buffer)
            → m.references (use_frame frees (use_frames us h)).store b
              ≡ others b + m.occurrences b (use_frames us h).handed)
  unfolding use_frames
  use_frames-IsBalanced others [] h i = (i, λ b. free-references others h b i)
  use_frames-IsBalanced others (u ∷ us) h i =
      use_frames-IsBalanced others us (use_frame u h) (use_frame-IsBalanced others u h i)

  -- What Unmarshal has put into a frame is what Marshal gives of it and what Data reads, until it is
  -- freed; a frame made of bytes reads as those bytes, nil if there are none, and sending it touches
  -- no count.
  marshal-unmarshal :
      (bs : List m.Buffer) (f : Frame m) (s t : m.Store) (d : List ℕ) (b : m.Buffer)
      → let (v, s') = unmarshal proto bs (frame f) s in
        let g = the_frame f v in
        ((marshal proto (frame g) s').0 ≡ ok bs)
        × (frame_bytes g ≡ m.materialize bs)
        × (frame_bytes (free g s').0 ≡ none)
        × (frame_bytes (frame_from_bytes {m = m} d) ≡ (if is_empty d then none else some d))
        × (m.references (marshal proto (frame (frame_from_bytes d)) t).1 b ≡ m.references t b)
  unfolding unmarshal marshal frame_bytes frame_from_bytes
  marshal-unmarshal bs f s t d b = (
    refl,
    refl,
    m.materialize-nil,
    frame_bytes-frame_from_bytes m d,
    omega (arith, m.references-ref b (m.slice_buffer d ∷ []) t, m.occurrences-slice_buffer b d),
  )
