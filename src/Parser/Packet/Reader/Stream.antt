-- ===== src/Parser/Packet/Reader/Stream.antt =====
-- A stream of encoded messages read back, whole and cut off.
use g_rpcat.Base.{
  ℕ, zero, suc, ◌+◌, ◌≤◌, ◌<◌, ◌≡◌, refl, sym, ◌∙◌, List, [], ◌∷◌, ◌++◌, ok, err, arith, ltb, ◌==◌,
  if◌then◌else◌, length, take, All, append_assoc, ap, length-append, some, take-append, drop-append,
  Bool, length-take_of_le,
}
use g_rpcat.Parser.Packet.Words.{uint32, be_uint32, put_uint32, be-put_uint32}
use g_rpcat.Parser.Packet.{GrpcMessage, encode_grpc_message}
use g_rpcat.Parser.Packet.RoundTrip.{encode-shape, flag_read}
use g_rpcat.Parser.Packet.Reader.{
  Reader, ReadError, eof, unexpected_eof, ReaderError, header_failed, payload_failed,
  max_message_size, parse_grpc_message_from_reader, read_payload, read_full,
}
use g_rpcat.Parser.Packet.Reader.Laws.{read_header, short_header}

-- A message that ParseGRPCMessageFromReader accepts.
abbrev pub IsReadable : GrpcMessage → Type 0
IsReadable m = (m.length ≡ length m.payload) × (m.length ≤ max_message_size)

-- The bytes of the header of a message.
flag_of : GrpcMessage → ℕ
flag_of m = if m.compressed then 1 else 0

read_payload_whole :
    (m : GrpcMessage) (rest : List ℕ) (q : ReadError)
    → IsReadable m
    → read_payload m.compressed m.length (record { left = m.payload ++ rest; failure = q })
      ≡ (ok m, record { left = rest; failure = q })
unfolding read_payload read_full
read_payload_whole m rest q h = ground (
  arith,
  length-append m.payload rest,
  take-append m.payload rest m.length (sym h.0),
  drop-append m.payload rest m.length (sym h.0),
)

-- A readable message is read back from its encoding, and the reader is left at what follows.
pub read-encode :
    (m : GrpcMessage) (rest : List ℕ) (q : ReadError)
    → IsReadable m
    → parse_grpc_message_from_reader (record { left = encode_grpc_message m ++ rest; failure = q })
      ≡ (ok m, record { left = rest; failure = q })
unfolding put_uint32
read-encode m rest q h =
    let n : uint32 (length m.payload) ≡ m.length = omega arith in
    rw (encode-shape m rest) (
      read_header _ _ _ _ _ _ m.length (m.payload ++ rest) refl
        (be-put_uint32 (uint32 (length m.payload)) [] (omega arith) ∙ ap some n)
      ∙ rw (flag_read m.compressed) (read_payload_whole m rest q h))

-- Reading again and again gives these messages in this order, and leaves this reader.
pub data ReadsAll : Reader → List GrpcMessage → Reader → Type 0 where
  done : {r : Reader} → ReadsAll r [] r
  more :
      {m : GrpcMessage} {ms : List GrpcMessage} {r r' r'' : Reader}
      → parse_grpc_message_from_reader r ≡ (ok m, r')
      → ReadsAll r' ms r''
      → ReadsAll r (m ∷ ms) r''

abbrev pub encode_all : List GrpcMessage → List ℕ
encode_all [] = []
encode_all (m ∷ ms) = encode_grpc_message m ++ encode_all ms

-- A stream of readable messages, one behind the other, is read back message by message.
pub ReadsAll-encode_all :
    (ms : List GrpcMessage) (rest : List ℕ) (q : ReadError)
    → All IsReadable ms
    → ReadsAll
        (record { left = encode_all ms ++ rest; failure = q })
        ms
        (record { left = rest; failure = q })
ReadsAll-encode_all [] rest q h = done
ReadsAll-encode_all (m ∷ ms) rest q h =
    rw (append_assoc (encode_grpc_message m) (encode_all ms) rest)
      (more (read-encode m (encode_all ms ++ rest) q h.0) (ReadsAll-encode_all ms rest q h.1))

-- The error for a stream that ends after `k` bytes of a message.
abbrev pub truncation : ℕ → ReaderError
truncation k =
    if k == 0
    then header_failed eof
    else if ltb k 5
    then header_failed unexpected_eof
    else if k == 5
    then payload_failed eof
    else payload_failed unexpected_eof

read_payload_short :
    (compressed : Bool) (n k : ℕ) (bytes : List ℕ)
    → n ≡ length bytes
    → n ≤ max_message_size
    → k < n
    → (read_payload compressed n (record { left = take k bytes; failure = eof })).0
      ≡ err (payload_failed (if k == 0 then eof else unexpected_eof))
unfolding read_payload read_full
read_payload_short compressed n zero bytes e small short = ground arith
read_payload_short compressed n (suc k) [] e small short = absurd (omega arith)
read_payload_short compressed n (suc k) (x ∷ bytes) e small short =
    ground (arith, length-take_of_le k bytes (omega arith))

abbrev TruncatesAt : ℕ → List ℕ → Type 0
TruncatesAt k bytes =
    (parse_grpc_message_from_reader (record { left = bytes; failure = eof })).0 ≡ err (truncation k)

truncated_at :
    (m : GrpcMessage) (k f a b c d : ℕ)
    → IsReadable m
    → k < 5 + m.length
    → (f == 1) ≡ m.compressed
    → be_uint32 (a ∷ b ∷ c ∷ d ∷ []) ≡ some m.length
    → TruncatesAt k (take k (f ∷ a ∷ b ∷ c ∷ d ∷ m.payload))
truncated_at m zero f a b c d h short e w = ap (λ r. r.0) (short_header _ (omega arith))
truncated_at m (suc zero) f a b c d h short e w = ap (λ r. r.0) (short_header _ (omega arith))
truncated_at m (suc (suc zero)) f a b c d h short e w = ap (λ r. r.0) (short_header _ (omega arith))
truncated_at m (suc (suc (suc zero))) f a b c d h short e w =
    ap (λ r. r.0) (short_header _ (omega arith))
truncated_at m (suc (suc (suc (suc zero)))) f a b c d h short e w =
    ap (λ r. r.0) (short_header _ (omega arith))
truncated_at m (suc (suc (suc (suc (suc k))))) f a b c d h short e w =
    ap (λ r. r.0) (read_header _ f a b c d m.length (take k m.payload) refl w)
    ∙ rw e
        (read_payload_short m.compressed m.length k m.payload h.0 h.1 (omega arith) ∙ ground arith)

-- A stream that ends with io.EOF inside a message is an error: io.EOF if nothing was read,
-- io.ErrUnexpectedEOF inside the header or the payload, but io.EOF again right behind the header.
pub read_truncated :
    (m : GrpcMessage) (k : ℕ)
    → IsReadable m
    → k < 5 + m.length
    → TruncatesAt k (take k (encode_grpc_message m))
unfolding encode_grpc_message put_uint32
read_truncated m k h short =
    let n : uint32 (length m.payload) ≡ m.length = omega arith in
    truncated_at m k _ _ _ _ _ h short (flag_read m.compressed)
      (be-put_uint32 (uint32 (length m.payload)) [] (omega arith) ∙ ap some n)
