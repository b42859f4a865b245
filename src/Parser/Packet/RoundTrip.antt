-- ===== src/Parser/Packet/RoundTrip.antt =====
-- Parsing a message without a panic, and parsing against encoding.
use g_rpcat.Base.{
  ℕ, ◌+◌, ◌-◌, ◌^◌, ◌≤◌, ◌<◌, ◌≡◌, inl, inr, List, [], ◌∷◌, some, Outcome, ok, err, arith, ltb, leb,
  ◌==◌, if◌then◌else◌, Bool-cases, length, take, Option, ◌⊎◌, drop, none, sym, length-take_of_le,
  ◌∙◌, ap, Bool, refl, true, false, take-append, ◌++◌, length-append, ◌≢◌, ◌*◌, take-append-drop,
}
use g_rpcat.Parser.Packet.Words.{
  be_uint32, IsBytes, be_uint32_bounds, put_uint32, be-put_uint32, put-be_uint32, uint32,
}
use g_rpcat.Parser.Packet.{
  GrpcMessage, PacketError, incomplete_message, slice, parse_grpc_message, data_too_short,
  encode_grpc_message, put_uint32,
}

-- What the parser makes of a header's length and the bytes behind the header.
abbrev pub body : ℕ → ℕ → List ℕ → Outcome PacketError GrpcMessage
body flag n rest =
    if ltb (length rest) n
    then err (incomplete_message (5 + n) (5 + length rest))
    else ok (record { compressed = flag == 1; length = n; payload = take n rest })

slice_header :
    (f a b c d : ℕ) (rest : List ℕ)
    → slice {E = PacketError} (f ∷ a ∷ b ∷ c ∷ d ∷ rest) 1 5 ≡ ok (a ∷ b ∷ c ∷ d ∷ [])
unfolding slice
slice_header f a b c d rest = ground arith

slice_payload :
    (f a b c d n : ℕ) (rest : List ℕ)
    → n ≤ length rest
    → slice {E = PacketError} (f ∷ a ∷ b ∷ c ∷ d ∷ rest) 5 (5 + n) ≡ ok (take n rest)
unfolding slice
slice_payload f a b c d n rest h =
    let e : 5 + n - 5 ≡ n = omega arith in
    elim (Bool-cases (leb 5 (5 + n))) [ inl p ↦ rw (p, e) (ground arith) | inr p ↦ ground arith ]

-- Behind a whole header the parser neither wraps nor slices out of range.
pub parse_header :
    (f a b c d : ℕ) (rest : List ℕ) (n : ℕ)
    → n < 2 ^ 32
    → be_uint32 (a ∷ b ∷ c ∷ d ∷ []) ≡ some n
    → parse_grpc_message (f ∷ a ∷ b ∷ c ∷ d ∷ rest) ≡ body f n rest
unfolding parse_grpc_message
parse_header f a b c d rest n h e =
    ground (arith, slice_header f a b c d rest, slice_payload f a b c d n rest)

-- The length that a header announces.
abbrev pub announced : List ℕ → Option ℕ
announced [] = none
announced (f ∷ bytes) = be_uint32 bytes

-- The length field is that of the payload, and fits in 32 bits.
abbrev pub IsFramed : GrpcMessage → Type 0
IsFramed m = (m.length ≡ length m.payload) × (m.length < 2 ^ 32)

parse_short :
    (bytes : List ℕ)
    → length bytes < 5
    → parse_grpc_message bytes ≡ err (data_too_short (length bytes))
unfolding parse_grpc_message
parse_short bytes h = ground arith

body-cases :
    (f n : ℕ) (rest : List ℕ)
    → n < 2 ^ 32
    → ((length rest < n) × (body f n rest ≡ err (incomplete_message (5 + n) (5 + length rest))))
      ⊎ ((m : GrpcMessage) × (body f n rest ≡ ok m)
          × IsFramed m
          × (m.length ≡ n)
          × (n ≤ length rest)
          × (m.payload ≡ take n rest)
          × (m.compressed ≡ (f == 1)))
body-cases f n rest h = elim (Bool-cases (ltb (length rest) n)) [
  | inl short ↦ inl (ground arith, rw short)
  | inr enough ↦
      let fits : n ≤ length rest = ground arith in
      inr (
        record { compressed = f == 1; length = n; payload = take n rest },
        rw enough,
        (sym (length-take_of_le n rest fits), h),
        refl,
        fits,
        refl,
        refl,
      )
]

-- The answer to a byte slice: too short, cut off, or a message, but never a panic.
abbrev pub Answers : List ℕ → Outcome PacketError GrpcMessage → Type 0
Answers bytes r =
    ((length bytes < 5) × (r ≡ err (data_too_short (length bytes))))
    ⊎ (((n : ℕ) × (announced bytes ≡ some n)
          × (5 ≤ length bytes)
          × (length bytes < 5 + n)
          × (r ≡ err (incomplete_message (5 + n) (length bytes))))
        ⊎ ((m : GrpcMessage) × (r ≡ ok m)
            × IsFramed m
            × (announced bytes ≡ some m.length)
            × (5 + m.length ≤ length bytes)
            × (m.payload ≡ take m.length (drop 5 bytes))))

-- Any bytes are answered in one of three ways: fewer than 5 bytes are too short; bytes that end
-- before the announced length are incomplete, with both sizes in the error; all others give a
-- message with that length and exactly the bytes behind the header. No input makes it panic.
pub parse_grpc_message_total :
    (bytes : List ℕ) → IsBytes bytes → Answers bytes (parse_grpc_message bytes)
unfolding be_uint32
parse_grpc_message_total (f ∷ a ∷ b ∷ c ∷ d ∷ rest) h =
    let bound = be_uint32_bounds a b c d _ [] (ground arith) refl in
    let e = parse_header f a b c d rest _ bound refl in
    elim (body-cases f _ rest bound) [
      | inl (short, refused) ↦
          inr (inl (_, refl, ground arith, ground arith, ground (arith, e, refused)))
      | inr (m, done, framed, n, fits, payload, _) ↦
          inr (inr (m, e ∙ done, framed, ap some (sym n), ground arith, ground arith))
    ]
parse_grpc_message_total bytes h = inl (ground arith, parse_short bytes (ground arith))

pub encode-shape :
    (m : GrpcMessage) (rest : List ℕ)
    → encode_grpc_message m ++ rest
      ≡ (if m.compressed then 1 else 0)
        ∷ (put_uint32 (uint32 (length m.payload)) ++ (m.payload ++ rest))
unfolding encode_grpc_message put_uint32
encode-shape m rest = refl

pub flag_read : (b : Bool) → ((if b then 1 else 0) == 1) ≡ b
flag_read true = refl
flag_read false = refl

-- Whatever follows it, an encoded message is read back with its flag, with the length of its
-- payload modulo 2 ^ 32, and with that many bytes.
pub parse-encode_wrapped :
    (m : GrpcMessage) (rest : List ℕ)
    → let n = uint32 (length m.payload) in
      parse_grpc_message (encode_grpc_message m ++ rest)
      ≡ ok (record { compressed = m.compressed; length = n; payload = take n (m.payload ++ rest) })
unfolding put_uint32
parse-encode_wrapped m rest =
    let n : ℕ = uint32 (length m.payload) in
    let bound : n < 2 ^ 32 = omega arith in
    rw (encode-shape m rest)
      (parse_header _ _ _ _ _ (m.payload ++ rest) n bound (be-put_uint32 n [] bound) ∙ kept)
  where
    enough : ltb (length (m.payload ++ rest)) (uint32 (length m.payload)) ≡ false
    enough = ground (arith, length-append m.payload rest)

    kept :
        body (if m.compressed then 1 else 0) (uint32 (length m.payload)) (m.payload ++ rest)
        ≡ ok (record {
          compressed = m.compressed;
          length = uint32 (length m.payload);
          payload = take (uint32 (length m.payload)) (m.payload ++ rest);
        })
    kept = rw (enough, flag_read m.compressed)

-- A message whose length field is that of its payload, below 2 ^ 32, is parsed back from its
-- encoding, whatever bytes follow.
pub parse-encode :
    (m : GrpcMessage) (rest : List ℕ)
    → IsFramed m
    → parse_grpc_message (encode_grpc_message m ++ rest) ≡ ok m
parse-encode m rest (same_length, bound) =
    let n : uint32 (length m.payload) ≡ m.length = omega arith in
    parse-encode_wrapped m rest
    ∙ ground (arith, n, take-append m.payload rest m.length (sym same_length))

abbrev payload_of : Outcome PacketError GrpcMessage → List ℕ
payload_of (ok m) = m.payload
payload_of _ = []

-- A payload of 2 ^ 32 bytes or more is not read back: its length wraps on the wire.
pub parse-encode_oversized :
    (m : GrpcMessage) (rest : List ℕ)
    → 2 ^ 32 ≤ length m.payload
    → parse_grpc_message (encode_grpc_message m ++ rest) ≢ ok m
parse-encode_oversized m rest h e =
    let n : ℕ = uint32 (length m.payload) in
    let same_payload = ap payload_of (sym (parse-encode_wrapped m rest) ∙ e) in
    omega (
      arith,
      ap length same_payload,
      length-append m.payload rest,
      length-take_of_le n (m.payload ++ rest) (omega (arith, length-append m.payload rest)),
    )

body_sound :
    (f n : ℕ) (rest : List ℕ) (m : GrpcMessage)
    → body f n rest ≡ ok m
    → (n ≤ length rest) × (m ≡ record { compressed = f == 1; length = n; payload = take n rest })
body_sound f n rest m e = ground arith

flag_written : (f : ℕ) → f ≤ 1 → (if f == 1 then 1 else 0) ≡ f
flag_written f h = ground arith

encode_header :
    (f a b c d n : ℕ) (rest : List ℕ)
    → IsBytes (a ∷ b ∷ c ∷ d ∷ [])
    → f ≤ 1
    → be_uint32 (a ∷ b ∷ c ∷ d ∷ []) ≡ some n
    → n ≤ length rest
    → n < 2 ^ 32
    → encode_grpc_message (record { compressed = f == 1; length = n; payload = take n rest })
      ≡ f ∷ a ∷ b ∷ c ∷ d ∷ take n rest
unfolding encode_grpc_message be_uint32
encode_header f a b c d n rest h small e fits bound =
    let same_length : uint32 (length (take n rest)) ≡ n =
      omega (arith, length-take_of_le n rest fits) in
    rw (same_length, flag_written f small) (ground (arith, put-be_uint32 a b c d h))

-- Bytes that parse, with a flag byte of 0 or 1, are the encoding of the message and what follows.
pub encode-parse :
    (f : ℕ) (bytes : List ℕ) (m : GrpcMessage)
    → IsBytes (f ∷ bytes)
    → f ≤ 1
    → parse_grpc_message (f ∷ bytes) ≡ ok m
    → (rest : List ℕ) × (f ∷ bytes ≡ encode_grpc_message m ++ rest) × IsFramed m
unfolding be_uint32
encode-parse f (a ∷ b ∷ c ∷ d ∷ rest) m h small e =
    let n : ℕ = ((a * 256 + b) * 256 + c) * 256 + d in
    let word : IsBytes (a ∷ b ∷ c ∷ d ∷ []) = ground arith in
    let bound : n < 2 ^ 32 = be_uint32_bounds a b c d n [] word refl in
    let (fits, same_message) =
      body_sound f n rest m (sym (parse_header f a b c d rest n bound refl) ∙ e) in
    (
      drop n rest,
      rw (same_message, encode_header f a b c d n rest word small refl fits bound)
          (ap (λ r. f ∷ a ∷ b ∷ c ∷ d ∷ r) (sym (take-append-drop n rest))),
      rw same_message (sym (length-take_of_le n rest fits), bound),
    )
encode-parse f bytes m h small e = absurd (too_short (parse_short (f ∷ bytes) (omega arith)))
  where
    too_short : parse_grpc_message (f ∷ bytes) ≢ err (data_too_short (length (f ∷ bytes)))
    too_short refused = cc
