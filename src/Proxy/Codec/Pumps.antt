-- ===== src/Proxy/Codec/Pumps.antt =====
-- The one frame of a pump (forwardBackendToClient and forwardClientToBackend of proxy/forwarder.go)
-- and its buffers: RecvMsg fills it, SendMsg takes references of its own, and Free follows at once.
use g_rpcat.Base.{◌+◌, ◌≡◌, refl, List, [], ◌∷◌, ◌++◌, Option, none, some, arith, ap}
use g_rpcat.Proxy.Mem.{Mem}
use g_rpcat.Proxy.Codec.{Frame, ProtoCodec, empty_frame}
use g_rpcat.Proxy.Codec.Ownership.{
  FrameUse, frees, marshals, unmarshals, Held, use_frame, use_frames, use_frames-IsBalanced,
}

-- How a pump ends: RecvMsg fails, perhaps after it has filled the frame, or SendMsg fails, perhaps
-- after it has taken its references.
pub data PumpEnd (m : Mem) : Type 0 where
  receive_fails : Option (List m.Buffer) → PumpEnd m
  send_fails_before send_fails_after : List m.Buffer → PumpEnd m

module _ {m : Mem} where
  -- The end of the goroutine, with the deferred Free.
  unfoldable pub end_uses : PumpEnd m → List (FrameUse m)
  end_uses (receive_fails none) = frees ∷ []
  end_uses (receive_fails (some bs)) = unmarshals bs ∷ frees ∷ []
  end_uses (send_fails_before bs) = unmarshals bs ∷ frees ∷ frees ∷ []
  end_uses (send_fails_after bs) = unmarshals bs ∷ marshals ∷ frees ∷ frees ∷ []

  -- The loop over the messages that were passed on, and its end.
  unfoldable pub pump_uses : List (List m.Buffer) → PumpEnd m → List (FrameUse m)
  unfolding end_uses
  pump_uses [] end = end_uses end
  pump_uses (bs ∷ msgs) end = unmarshals bs ∷ marshals ∷ frees ∷ pump_uses msgs end

  -- What grpc was handed, the last message first.
  abbrev pub end_sent : PumpEnd m → List m.Buffer
  end_sent (receive_fails o) = []
  end_sent (send_fails_before bs) = []
  end_sent (send_fails_after bs) = bs

  abbrev pub pump_sent : List (List m.Buffer) → PumpEnd m → List m.Buffer → List m.Buffer
  pump_sent [] end handed = end_sent end ++ handed
  pump_sent (bs ∷ msgs) end handed = pump_sent msgs end (bs ++ handed)

module _ {m : Mem} {V : Type 0} (proto : ProtoCodec m V) where
  end-frame :
      (end : PumpEnd m) (h : Held m)
      → let k = use_frames proto (end_uses end) h in
        (k.frame ≡ empty_frame) × (k.handed ≡ end_sent end ++ h.handed)
  unfolding end_uses use_frames
  end-frame (receive_fails none) h = (refl, refl)
  end-frame (receive_fails (some bs)) h = (refl, refl)
  end-frame (send_fails_before bs) h = (refl, refl)
  end-frame (send_fails_after bs) h = (refl, refl)

  pump-frame :
      (msgs : List (List m.Buffer)) (end : PumpEnd m) (h : Held m)
      → let k = use_frames proto (pump_uses msgs end) h in
        (k.frame ≡ empty_frame) × (k.handed ≡ pump_sent msgs end h.handed)
  unfolding pump_uses use_frames
  pump-frame [] end h = end-frame end h
  pump-frame (bs ∷ msgs) end h =
      pump-frame msgs end
        (use_frame proto frees (use_frame proto marshals (use_frame proto (unmarshals bs) h)))

  -- However a pump ends and whatever it has passed on, its frame is empty then, grpc was handed the
  -- buffers of the messages that were sent, and every other reference is one that there was before.
  pub pump_frees_all :
      (msgs : List (List m.Buffer)) (end : PumpEnd m) (store : m.Store) (b : m.Buffer)
      → let k =
          use_frames proto
            (pump_uses msgs end)
            (record { frame = empty_frame; store = store; handed = [] }) in
        (k.frame ≡ empty_frame)
        × (k.handed ≡ pump_sent msgs end [])
        × (m.references k.store b ≡ m.references store b + m.occurrences b (pump_sent msgs end []))
  pump_frees_all msgs end store b =
      let start : Held m = record { frame = empty_frame; store = store; handed = [] } in
      let (empty, sent) = pump-frame msgs end start in
      let balanced =
        (use_frames-IsBalanced proto (m.references store) (pump_uses msgs end) start
            (λ c. omega (arith, m.occurrences-nil c))).0
          b in
      (
        empty,
        sent,
        omega (
          arith,
          balanced,
          ap (m.occurrences b) sent,
          ap (λ (f : Frame m). m.occurrences b f.buffers) empty,
          m.occurrences-nil b,
        ),
      )
