-- ===== src/Parser/Packet/Reader.antt =====
-- ParseGRPCMessageFromReader over an io.Reader that still has some bytes to give and then fails,
-- mostly with io.EOF. How the bytes are cut into reads does not matter to io.ReadFull.
pub mod Laws
pub mod Stream
use g_rpcat.Base.{
  ℕ, ◌+◌, ◌*◌, ◌^◌, Bool, List, [], ◌∷◌, Option, none, some, Outcome, ok, err, panic, ◌>>=◌,
  or_panic, ltb, leb, ◌==◌, if◌then◌else◌, length, take, drop, get_elem?,
}
use g_rpcat.Parser.Packet.Words.{be_uint32}
use g_rpcat.Parser.Packet.{GrpcMessage}

pub data ReadError : Type 0 where
  eof unexpected_eof : ReadError
  fault : ℕ → ReadError

pub record Reader : Type 0 where
  pub left : List ℕ
  pub failure : ReadError

-- io.EOF after some of the bytes is io.ErrUnexpectedEOF.
abbrev cut_off : List ℕ → ReadError → ReadError
cut_off [] e = e
cut_off (_ ∷ _) eof = unexpected_eof
cut_off (_ ∷ _) unexpected_eof = unexpected_eof
cut_off (_ ∷ _) (fault k) = fault k

-- io.ReadFull(reader, buf) for a buffer of `n` bytes: the bytes, and the reader that is left.
unfoldable pub read_full : Reader → ℕ → Outcome ReadError (List ℕ) × Reader
read_full r n =
    if leb n (length r.left)
    then (ok (take n r.left), record r { left = drop n r.left })
    else (err (cut_off r.left r.failure), record r { left = [] })

-- The errors, with what they wrap or show.
pub data ReaderError : Type 0 where
  header_failed : ReadError → ReaderError
  message_too_large : ℕ → ReaderError
  payload_failed : ReadError → ReaderError

-- 4 << 20
abbrev pub max_message_size : ℕ
max_message_size = 4 * 2 ^ 20

abbrev wrap {ℓ} :
    {A : Type ℓ} → (ReadError → ReaderError) → Outcome ReadError A → Outcome ReaderError A
wrap f (ok a) = ok a
wrap f (err e) = err (f e)
wrap f panic = panic

-- What follows the header: the size check and the payload.
pub read_payload : Bool → ℕ → Reader → Outcome ReaderError GrpcMessage × Reader
read_payload compressed n r =
    if ltb max_message_size n
    then (err (message_too_large n), r)
    else let (payload, r') = read_full r n in
      (
        do
          bytes ← wrap payload_failed payload
          ok (record { compressed = compressed; length = n; payload = bytes }),
        r',
      )

-- The fields of a header of five bytes.
parse_header_bytes : List ℕ → Outcome ReaderError (Bool × ℕ)
parse_header_bytes header = do
  flag ← or_panic (get_elem? header 0)
  n ← or_panic (be_uint32 (drop 1 header))
  ok (flag == 1, n)

abbrev with_header :
    Reader → Outcome ReaderError (Bool × ℕ) → Outcome ReaderError GrpcMessage × Reader
with_header r (ok (compressed, n)) = read_payload compressed n r
with_header r (err e) = (err e, r)
with_header r panic = (panic, r)

unfoldable pub parse_grpc_message_from_reader : Reader → Outcome ReaderError GrpcMessage × Reader
unfolding read_full read_payload parse_header_bytes
parse_grpc_message_from_reader reader =
    let (header, r) = read_full reader 5 in
    with_header r (wrap header_failed header >>= parse_header_bytes)
