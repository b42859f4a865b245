-- ===== src/Parser/Packet.antt =====
-- parser/packet.go: a gRPC message is a flag byte, a big-endian 32-bit length and the payload.
-- Bytes are numbers below 256. `int` and `uint64` hold every length of a slice here.
pub mod Words
pub mod RoundTrip
pub mod Reader
mod Tests
use g_rpcat.Base.{
  ℕ, zero, suc, ◌+◌, ◌-◌, ◌*◌, ◌/◌, ◌%◌, ◌^◌, Bool, true, false, List, [], ◌∷◌, ◌++◌, Option, none,
  some, Outcome, ok, err, panic, ◌>>=◌, or_panic, ltb, leb, ◌==◌, if◌then◌else◌, length, take, drop,
  get_elem?,
}
use g_rpcat.Parser.Packet.Words.{uint32, be_uint32, put_uint32}

pub record GrpcMessage : Type 0 where
  pub compressed : Bool
  pub length : ℕ
  pub payload : List ℕ

-- The errors with the numbers that their texts show.
pub data PacketError : Type 0 where
  data_too_short : ℕ → PacketError
  incomplete_message : ℕ → ℕ → PacketError

-- data[lo:hi], which panics unless lo ≤ hi ≤ len(data)
unfoldable pub slice {ℓ} : {A : Type 0} {E : Type ℓ} → List A → ℕ → ℕ → Outcome E (List A)
slice xs lo hi =
    if leb lo hi
    then (if leb hi (length xs) then ok (take (hi - lo) (drop lo xs)) else panic)
    else panic

-- 5 + uint64(msg.Length)
unfoldable pub message_end : ℕ → ℕ
message_end n = (5 + n) % 2 ^ 64

unfoldable pub parse_grpc_message : List ℕ → Outcome PacketError GrpcMessage
unfolding message_end
parse_grpc_message bytes = if ltb (length bytes) 5 then err (data_too_short (length bytes)) else do
  flag ← or_panic (get_elem? bytes 0)
  header ← slice bytes 1 5
  n ← or_panic (be_uint32 header)
  let end = message_end n
  if ltb (length bytes) end then err (incomplete_message end (length bytes)) else do
    payload ← slice bytes 5 end
    ok (record { compressed = flag == 1; length = n; payload = payload })

-- buf[1:5] holds the length, truncated to 32 bits.
unfoldable pub encode_grpc_message : GrpcMessage → List ℕ
encode_grpc_message msg =
    (if msg.compressed then 1 else 0) ∷ (put_uint32 (uint32 (length msg.payload)) ++ msg.payload)
