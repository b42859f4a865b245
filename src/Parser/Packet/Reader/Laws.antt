-- ===== src/Parser/Packet/Reader/Laws.antt =====
-- Reading messages off a stream, against parsing them from a slice.
use g_rpcat.Base.{
  ℕ, ◌+◌, ◌≤◌, ◌<◌, ◌≡◌, refl, sym, ◌∙◌, ◌⊎◌, inl, inr, List, [], ◌∷◌, Outcome, ok, err, arith,
  some, drop, length, ◌==◌, take, Bool-cases, ltb, leb, five-cases, ◌*◌, ◌^◌, subst, suc,
}
use g_rpcat.Parser.Packet.Words.{be_uint32, IsBytes, be_uint32_bounds}
use g_rpcat.Parser.Packet.{GrpcMessage, parse_grpc_message}
use g_rpcat.Parser.Packet.RoundTrip.{announced, parse_header}
use g_rpcat.Parser.Packet.Reader.{
  Reader, ReadError, ReaderError, header_failed, message_too_large, payload_failed,
  max_message_size, read_payload, read_full, parse_grpc_message_from_reader, cut_off,
}

pub read_header :
    (r : Reader) (f a b c d n : ℕ) (rest : List ℕ)
    → r.left ≡ f ∷ a ∷ b ∷ c ∷ d ∷ rest
    → be_uint32 (a ∷ b ∷ c ∷ d ∷ []) ≡ some n
    → parse_grpc_message_from_reader r ≡ read_payload (f == 1) n (record r { left = rest })
unfolding parse_grpc_message_from_reader
read_header r f a b c d n rest e w = ground arith

-- What a read leaves behind after `n` bytes.
abbrev pub advance : ℕ → Reader → Reader
advance n r = record r { left = drop n r.left }

abbrev pub Read : Type 0
Read = Outcome ReaderError GrpcMessage × Reader

-- The four answers to a reader with the bytes `r.left`.
pub data Reads (r : Reader) (result : Read) : Type 0 where
  no_header :
      length r.left < 5
      → result ≡ (err (header_failed (cut_off r.left r.failure)), record r { left = [] })
      → Reads r result
  too_large :
      (n : ℕ)
      → announced r.left ≡ some n
      → max_message_size < n
      → result ≡ (err (message_too_large n), advance 5 r)
      → Reads r result
  no_payload :
      (n : ℕ)
      → announced r.left ≡ some n
      → n ≤ max_message_size
      → length r.left < 5 + n
      → result ≡ (err (payload_failed (cut_off (drop 5 r.left) r.failure)), record r { left = [] })
      → Reads r result
  message :
      (m : GrpcMessage)
      → parse_grpc_message r.left ≡ ok m
      → m.length ≤ max_message_size
      → result ≡ (ok m, advance (5 + m.length) r)
      → Reads r result

pub short_header :
    (r : Reader)
    → length r.left < 5
    → parse_grpc_message_from_reader r
      ≡ (err (header_failed (cut_off r.left r.failure)), record r { left = [] })
unfolding parse_grpc_message_from_reader
short_header r h = ground arith

read_payload-cases :
    (r : Reader) (f n : ℕ) (rest : List ℕ)
    → ((max_message_size < n)
        × (read_payload (f == 1) n (record r { left = rest })
            ≡ (err (message_too_large n), record r { left = rest })))
      ⊎ (((n ≤ max_message_size)
            × (length rest < n)
            × (read_payload (f == 1) n (record r { left = rest })
                ≡ (err (payload_failed (cut_off rest r.failure)), record r { left = [] })))
          ⊎ ((n ≤ max_message_size)
              × (n ≤ length rest)
              × (read_payload (f == 1) n (record r { left = rest }) ≡ (
                ok (record { compressed = f == 1; length = n; payload = take n rest }),
                record r { left = drop n rest },
              ))))
unfolding read_payload read_full
read_payload-cases r f n rest = elim (Bool-cases (ltb max_message_size n)) [
  | inl big ↦ inl (ground arith, rw big)
  | inr small ↦ elim (Bool-cases (leb n (length rest))) [
    | inl fits ↦ inr (inr (ground arith, ground arith, rw (small, fits)))
    | inr short ↦ inr (inl (ground arith, ground arith, rw (small, short)))
  ]
]

drop_header :
    (f a b c d n : ℕ) (rest : List ℕ) → drop (5 + n) (f ∷ a ∷ b ∷ c ∷ d ∷ rest) ≡ drop n rest
drop_header f a b c d n rest = let e : 5 + n ≡ suc (suc (suc (suc (suc n)))) = omega arith in rw e

abbrev Answered : ReadError → List ℕ → Type 0
Answered q bytes =
    IsBytes bytes
    → let r : Reader = record { left = bytes; failure = q } in
      Reads r (parse_grpc_message_from_reader r)

Reads_of_header :
    (q : ReadError) (f a b c d : ℕ) (rest : List ℕ) → Answered q (f ∷ a ∷ b ∷ c ∷ d ∷ rest)
unfolding be_uint32
Reads_of_header q f a b c d rest h =
    let r : Reader = record { left = f ∷ a ∷ b ∷ c ∷ d ∷ rest; failure = q } in
    let n : ℕ = ((a * 256 + b) * 256 + c) * 256 + d in
    let word : IsBytes (a ∷ b ∷ c ∷ d ∷ []) = ground arith in
    let bound : n < 2 ^ 32 = be_uint32_bounds a b c d n [] word refl in
    let read = read_header r f a b c d n rest refl refl in
    let parsed = parse_header f a b c d rest n bound refl in
    elim (read_payload-cases r f n rest) [
      | inl (big, done) ↦ too_large n refl big (read ∙ done)
      | inr (inl (small, short, done)) ↦ no_payload n refl small (omega arith) (read ∙ done)
      | inr (inr (small, fits, done)) ↦
          message (record { compressed = f == 1; length = n; payload = take n rest })
            (ground (arith, parsed)) small (read ∙ rw (drop_header f a b c d n rest) done)
    ]

-- Whatever bytes the reader has, it answers in one of four ways: no whole header, an announced
-- length over the limit (and the payload is left unread), a payload cut off, or the message that
-- ParseGRPCMessage finds in the same bytes, leaving what follows it.
pub from_reader_total : (r : Reader) → IsBytes r.left → Reads r (parse_grpc_message_from_reader r)
from_reader_total r h = elim (five-cases r.left) [
  | inl short ↦ no_header short (short_header r short)
  | inr (f, a, b, c, d, rest, e) ↦
      subst (Answered r.failure) (sym e) (Reads_of_header r.failure f a b c d rest) h
]
