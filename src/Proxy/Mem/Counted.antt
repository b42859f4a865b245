-- ===== src/Proxy/Mem/Counted.antt =====
-- Buffers with a number and their bytes, and their counts as a function.
use g_rpcat.Base.{
  ℕ, ◌+◌, ◌-◌, ◌≡◌, refl, List, [], ◌∷◌, ◌++◌, Option, none, some, arith, if◌then◌else◌, ◌==◌,
}
use g_rpcat.Base.Texts.{is_empty}
use g_rpcat.Proxy.Mem.{Mem}

-- A pooled buffer has a number, a slice that grpc does not count has none.
abbrev pub Buffer : Type 0
Buffer = Option ℕ × List ℕ

abbrev pub holds : Option ℕ → Option ℕ → ℕ
holds (some i) (some j) = if i == j then 1 else 0
holds _ _ = 0

abbrev pub occurrences : Buffer → List Buffer → ℕ
occurrences b [] = 0
occurrences b (c ∷ bs) = holds b.0 c.0 + occurrences b bs

abbrev pub materialize : List Buffer → Option (List ℕ)
materialize [] = none
materialize (b ∷ bs) =
    if is_empty b.1
    then materialize bs
    else some (b.1 ++ elim (materialize bs) [ none ↦ [] | some d ↦ d ])

pub occurrences-append :
    (b : Buffer) (xs ys : List Buffer)
    → occurrences b (xs ++ ys) ≡ occurrences b xs + occurrences b ys
occurrences-append b [] ys = omega arith
occurrences-append b (x ∷ xs) ys = omega (arith, occurrences-append b xs ys)

pub occurrences-slice : (b : Buffer) (d : List ℕ) → occurrences b ((none, d) ∷ []) ≡ 0
occurrences-slice (none, c) d = refl
occurrences-slice (some i, c) d = refl

abbrev pub counted : Mem
counted = record {
  Buffer = Buffer;
  Store = Buffer → ℕ;
  references = λ s. s;
  occurrences = occurrences;
  ref = λ bs s b. s b + occurrences b bs;
  unref = λ bs s b. s b - occurrences b bs;
  materialize = materialize;
  bytes = λ b. b.1;
  slice_buffer = λ d. (none, d);
  occurrences-nil = λ b. refl;
  occurrences-append = occurrences-append;
  occurrences-slice_buffer = occurrences-slice;
  references-ref = λ b bs s. refl;
  references-unref = λ b bs s h. refl;
  materialize-nil = refl;
  materialize-cons = λ b bs. refl;
  bytes-slice_buffer = λ d. refl;
}
