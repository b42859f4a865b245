-- ===== src/Parser/Packet/Words.antt =====
-- binary.BigEndian's Uint32 and PutUint32, and Go's conversion to uint32.
use g_rpcat.Base.{
  ℕ, ◌+◌, ◌*◌, ◌/◌, ◌%◌, ◌^◌, ◌<◌, ◌≡◌, List, [], ◌∷◌, ◌++◌, Option, none, some, arith, All, ap,
}

-- uint32(n)
abbrev pub uint32 : ℕ → ℕ
uint32 n = n % 2 ^ 32

-- The first four bytes, the highest first; a shorter slice is a panic of the caller's.
unfoldable pub be_uint32 : List ℕ → Option ℕ
be_uint32 (a ∷ b ∷ c ∷ d ∷ _) = some (((a * 256 + b) * 256 + c) * 256 + d)
be_uint32 _ = none

unfoldable pub put_uint32 : ℕ → List ℕ
put_uint32 n = (n / 2 ^ 24) % 256 ∷ (n / 2 ^ 16) % 256 ∷ (n / 2 ^ 8) % 256 ∷ n % 256 ∷ []

abbrev pub IsBytes : List ℕ → Type 0
IsBytes = All (λ b. b < 256)

pub be-put_uint32 : (n : ℕ) (rest : List ℕ) → n < 2 ^ 32 → be_uint32 (put_uint32 n ++ rest) ≡ some n
unfolding be_uint32 put_uint32
be-put_uint32 n rest h = ap some (omega arith)

pub put-be_uint32 :
    (a b c d : ℕ)
    → IsBytes (a ∷ b ∷ c ∷ d ∷ [])
    → put_uint32 (((a * 256 + b) * 256 + c) * 256 + d) ≡ a ∷ b ∷ c ∷ d ∷ []
unfolding put_uint32
put-be_uint32 a b c d h = ground arith

pub be_uint32_bounds :
    (a b c d n : ℕ) (rest : List ℕ)
    → IsBytes (a ∷ b ∷ c ∷ d ∷ [])
    → be_uint32 (a ∷ b ∷ c ∷ d ∷ rest) ≡ some n
    → n < 2 ^ 32
unfolding be_uint32
be_uint32_bounds a b c d n rest h e = ground arith
