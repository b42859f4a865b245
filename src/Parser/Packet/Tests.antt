-- ===== src/Parser/Packet/Tests.antt =====
-- Runs of the message parser, and its laws at concrete messages.
use g_rpcat.Base.{◌≡◌, refl, ◌++◌, true, false, List, [], ◌∷◌, ok, err, panic, arith, take, ℕ}
use g_rpcat.Base.Texts.{codes}
use g_rpcat.Parser.Packet.{
  GrpcMessage, data_too_short, incomplete_message, slice, message_end, parse_grpc_message,
  encode_grpc_message,
}
use g_rpcat.Parser.Packet.Words.{be_uint32, put_uint32}
use g_rpcat.Parser.Packet.RoundTrip.{
  Answers, parse_grpc_message_total, parse-encode, parse-encode_wrapped, encode-parse, IsFramed,
}
use g_rpcat.Parser.Packet.Reader.{
  Reader, eof, payload_failed, header_failed, message_too_large, parse_grpc_message_from_reader,
}
use g_rpcat.Parser.Packet.Reader.Laws.{Reads, from_reader_total}
use g_rpcat.Parser.Packet.Reader.Stream.{encode_all, ReadsAll, ReadsAll-encode_all, read_truncated}

abbrev hi : GrpcMessage
hi = record { compressed = true; length = 2; payload = codes "hi" }

abbrev nothing : GrpcMessage
nothing = record { compressed = false; length = 0; payload = [] }

abbrev hi_bytes : List ℕ
hi_bytes = 1 ∷ 0 ∷ 0 ∷ 0 ∷ 2 ∷ b'h' ∷ b'i' ∷ []

parser : Unit {0}
unfolding parse_grpc_message encode_grpc_message be_uint32 put_uint32 slice message_end
    parse_grpc_message_from_reader
parser = tt

packet_tests :
    (parse_grpc_message hi_bytes ≡ ok hi)
    × (encode_grpc_message hi ≡ hi_bytes)
    × (parse_grpc_message (0 ∷ 0 ∷ []) ≡ err (data_too_short 2))
    × (parse_grpc_message (0 ∷ 255 ∷ 255 ∷ 255 ∷ 255 ∷ 9 ∷ [])
        ≡ err (incomplete_message 4_294_967_300 6))
    × (slice {A = ℕ} {E = Unit {0}} (1 ∷ 2 ∷ []) 1 5 ≡ panic)
unfolding parser
packet_tests = (refl, refl, refl, refl, refl)

reader_tests :
    ((parse_grpc_message_from_reader (record { left = hi_bytes ++ 7 ∷ []; failure = eof }))
      ≡ (ok hi, record { left = 7 ∷ []; failure = eof }))
    × ((parse_grpc_message_from_reader (record { left = []; failure = eof })).0
        ≡ err (header_failed eof))
    × ((parse_grpc_message_from_reader (record { left = 0 ∷ 1 ∷ 0 ∷ 0 ∷ 0 ∷ []; failure = eof })).0
        ≡ err (message_too_large 16_777_216))
unfolding parser
reader_tests = (refl, refl, refl)

parse_grpc_message_total_example : Answers hi_bytes (parse_grpc_message hi_bytes)
parse_grpc_message_total_example = parse_grpc_message_total hi_bytes (omega arith)

parse-encode_example : parse_grpc_message (encode_grpc_message hi ++ 7 ∷ []) ≡ ok hi
parse-encode_example = parse-encode hi (7 ∷ []) (refl, omega arith)

parse-encode_wrapped_example : parse_grpc_message (encode_grpc_message hi ++ 7 ∷ []) ≡ ok hi
parse-encode_wrapped_example = parse-encode_wrapped hi (7 ∷ [])

encode-parse_example : (rest : List ℕ) × (hi_bytes ≡ encode_grpc_message hi ++ rest) × IsFramed hi
encode-parse_example =
    encode-parse 1 (0 ∷ 0 ∷ 0 ∷ 2 ∷ b'h' ∷ b'i' ∷ []) hi (omega arith) (omega arith) packet_tests.0

abbrev reader : Reader
reader = record { left = hi_bytes; failure = eof }

from_reader_total_example : Reads reader (parse_grpc_message_from_reader reader)
from_reader_total_example = from_reader_total reader (omega arith)

ReadsAll-encode_all_example :
    ReadsAll
      (record { left = encode_all (hi ∷ nothing ∷ []) ++ []; failure = eof })
      (hi ∷ nothing ∷ [])
      (record { left = []; failure = eof })
ReadsAll-encode_all_example =
    ReadsAll-encode_all (hi ∷ nothing ∷ []) [] eof ((refl, omega arith), ((refl, omega arith), tt))

-- Cut off right behind the header, the message ends as a stream does between two messages.
read_truncated_example :
    (parse_grpc_message_from_reader
      (record { left = take 5 (encode_grpc_message hi); failure = eof })).0
    ≡ err (payload_failed eof)
read_truncated_example = read_truncated hi 5 (refl, omega arith) (omega arith)
