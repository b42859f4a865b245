-- ===== src/Proxy/Codec/Tests.antt =====
-- Frames over counted buffers.
use g_rpcat.Base.{ℕ, ◌+◌, ◌≡◌, refl, List, [], ◌∷◌, none, some, ok, err}
use g_rpcat.Proxy.Mem.Counted.{counted, Buffer}
use g_rpcat.Proxy.Codec.{ProtoCodec, empty_frame, frame_bytes}
use g_rpcat.Proxy.Codec.Ownership.{
  FrameUse, frees, marshals, unmarshals, Held, use_frame, use_frames, IsBalanced,
  use_frames-IsBalanced,
}
use g_rpcat.Proxy.Codec.Pumps.{send_fails_after, pump_uses, pump_frees_all}

-- A protobuf codec of messages that are numbers.
abbrev proto : ProtoCodec counted ℕ
proto = record { encode = λ v. ok ((none, v ∷ []) ∷ []); decode = λ bs v. err 1 }

abbrev nobody : Buffer → ℕ
nobody = λ b. 0

abbrev first : Buffer
first = (some 1, 7 ∷ [])

abbrev second : Buffer
second = (some 2, 8 ∷ 9 ∷ [])

abbrev empty : Held counted
empty = record { frame = record { buffers = [] }; store = nobody; handed = [] }

abbrev uses : List (FrameUse counted)
uses = unmarshals (first ∷ second ∷ []) ∷ marshals ∷ frees ∷ frees ∷ unmarshals (second ∷ []) ∷ []

use_frames_tests :
    ((use_frames proto uses empty).store first ≡ 1)
    × ((use_frames proto uses empty).store second ≡ 2)
    × ((use_frames proto uses empty).handed ≡ first ∷ second ∷ [])
    × (frame_bytes (use_frames proto uses empty).frame ≡ some (8 ∷ 9 ∷ []))
    × (frame_bytes (use_frames proto (frees ∷ []) empty).frame ≡ none)
unfolding use_frames frame_bytes
use_frames_tests = (refl, refl, refl, refl, refl)

use_frames-IsBalanced_example :
    IsBalanced proto nobody (use_frames proto uses empty)
    × ((b : Buffer)
        → (use_frame proto frees (use_frames proto uses empty)).store b
          ≡ nobody b + counted.occurrences b (use_frames proto uses empty).handed)
use_frames-IsBalanced_example = use_frames-IsBalanced proto nobody uses empty (λ i. refl)

pump_frees_all_example :
    let k =
      use_frames proto (pump_uses ((first ∷ []) ∷ []) (send_fails_after (second ∷ []))) empty in
    (k.frame ≡ empty_frame)
    × (k.handed ≡ second ∷ first ∷ [])
    × (k.store second ≡ 0 + counted.occurrences second (second ∷ first ∷ []))
pump_frees_all_example =
    pump_frees_all proto ((first ∷ []) ∷ []) (send_fails_after (second ∷ [])) nobody second
