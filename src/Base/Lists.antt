-- ===== src/Base/Lists.antt =====
-- Lists measured, indexed and sliced by native numbers, under the library's names.
use mathlib.Core.Logic.{◌⊎◌, inl, inr}
use Prim.Native.Nat.{ℕ, zero, suc, ◌+◌, ◌≤◌, ◌<◌}
use mathlib.Core.Path.{◌≡◌, refl, ap, subst}
use mathlib.Core.List.{List, [], ◌∷◌, ◌++◌}
use mathlib.Core.Option.{Option, none, some}
use native.Mathlib.Omega.{arith}

module _ {ℓ} {A : Type ℓ} where
  abbrev pub length : List A → ℕ
  length [] = 0
  length (x ∷ xs) = suc (length xs)

  abbrev pub get_elem? : List A → ℕ → Option A
  get_elem? [] i = none
  get_elem? (x ∷ xs) zero = some x
  get_elem? (x ∷ xs) (suc i) = get_elem? xs i

  abbrev pub take : ℕ → List A → List A
  take zero xs = []
  take (suc n) [] = []
  take (suc n) (x ∷ xs) = x ∷ take n xs

  abbrev pub drop : ℕ → List A → List A
  drop zero xs = xs
  drop (suc n) [] = []
  drop (suc n) (x ∷ xs) = drop n xs

  pub length-append : (xs ys : List A) → length (xs ++ ys) ≡ length xs + length ys
  length-append [] ys = omega arith
  length-append (x ∷ xs) ys = omega (arith, length-append xs ys)

  pub length-take_of_le : (n : ℕ) (xs : List A) → n ≤ length xs → length (take n xs) ≡ n
  length-take_of_le zero xs h = refl
  length-take_of_le (suc n) [] h = absurd (omega arith)
  length-take_of_le (suc n) (x ∷ xs) h = ap suc (length-take_of_le n xs (omega arith))

  pub take-append-drop : (n : ℕ) (xs : List A) → take n xs ++ drop n xs ≡ xs
  take-append-drop zero xs = refl
  take-append-drop (suc n) [] = refl
  take-append-drop (suc n) (x ∷ xs) = rw (take-append-drop n xs)

  pub take-append : (xs ys : List A) (n : ℕ) → length xs ≡ n → take n (xs ++ ys) ≡ xs
  take-append [] ys zero e = refl
  take-append [] ys (suc n) e = absurd (omega arith)
  take-append (x ∷ xs) ys zero e = absurd (omega arith)
  take-append (x ∷ xs) ys (suc n) e = ap (λ zs. x ∷ zs) (take-append xs ys n (omega arith))

  pub drop-append : (xs ys : List A) (n : ℕ) → length xs ≡ n → drop n (xs ++ ys) ≡ ys
  drop-append [] ys zero e = refl
  drop-append [] ys (suc n) e = absurd (omega arith)
  drop-append (x ∷ xs) ys zero e = absurd (omega arith)
  drop-append (x ∷ xs) ys (suc n) e = drop-append xs ys n (omega arith)

  pub get_elem?-lt : (xs : List A) (i : ℕ) → i < length xs → (a : A) × (get_elem? xs i ≡ some a)
  get_elem?-lt [] i h = absurd (omega arith)
  get_elem?-lt (x ∷ xs) zero h = (x, refl)
  get_elem?-lt (x ∷ xs) (suc i) h = get_elem?-lt xs i (omega arith)

-- A predicate on every element, by recursion, so that the tactics read it as a tuple.
abbrev pub All {ℓ κ} : {A : Type ℓ} → (A → Type κ) → List A → Type κ
All P [] = Unit
All P (x ∷ xs) = P x × All P xs

pub All-append {ℓ κ} :
    {A : Type ℓ} (P : A → Type κ) (xs ys : List A) → All P xs → All P ys → All P (xs ++ ys)
All-append P [] ys hx hy = hy
All-append P (x ∷ xs) ys hx hy = (hx.0, All-append P xs ys hx.1 hy)

-- A list without its i-th element.
abbrev pub remove_at {ℓ} : {A : Type ℓ} → ℕ → List A → List A
remove_at i [] = []
remove_at zero (x ∷ xs) = xs
remove_at (suc i) (x ∷ xs) = x ∷ remove_at i xs

module _ {ℓ} {A : Type ℓ} where
  pub length-remove_at :
      (i : ℕ) (xs : List A) {x : A}
      → get_elem? xs i ≡ some x
      → suc (length (remove_at i xs)) ≡ length xs
  length-remove_at i [] e = cc
  length-remove_at zero (x ∷ xs) e = refl
  length-remove_at (suc i) (x ∷ xs) e = ap suc (length-remove_at i xs e)

  pub All-remove_at {κ} : (P : A → Type κ) (i : ℕ) (xs : List A) → All P xs → All P (remove_at i xs)
  All-remove_at P i [] h = h
  All-remove_at P zero (x ∷ xs) h = h.1
  All-remove_at P (suc i) (x ∷ xs) h = (h.0, All-remove_at P i xs h.1)

  pub All-get_elem? :
      (P : A → Type 0) (i : ℕ) (xs : List A) (a : A) → All P xs → get_elem? xs i ≡ some a → P a
  All-get_elem? P i [] a h e = cc
  All-get_elem? P zero (x ∷ xs) a h e = let same : x ≡ a = cc in subst P same h.0
  All-get_elem? P (suc i) (x ∷ xs) a h e = All-get_elem? P i xs a h.1 e

  pub All-map : (P Q : A → Type 0) (xs : List A) → ((x : A) → P x → Q x) → All P xs → All Q xs
  All-map P Q [] f h = tt
  All-map P Q (x ∷ xs) f h = (f x h.0, All-map P Q xs f h.1)

-- A predicate on some element.
abbrev pub Any {ℓ} : {A : Type ℓ} → (A → Type 0) → List A → Type 0
Any P [] = ⊥
Any P (x ∷ xs) = P x ⊎ Any P xs

pub Any-append {ℓ} :
    {A : Type ℓ} (P : A → Type 0) (xs ys : List A)
    → (Any P (xs ++ ys) → Any P xs ⊎ Any P ys)
      × (Any P ys → Any P (xs ++ ys))
      × (Any P xs → Any P (xs ++ ys))
Any-append P [] ys = (λ h. inr h, λ h. h, λ h. absurd h)
Any-append P (x ∷ xs) ys =
    let (split, right, left) = Any-append P xs ys in
    (
      λ h. elim h [
        | inl here ↦ inl (inl here)
        | inr there ↦ elim (split there) [ inl l ↦ inl (inr l) | inr r ↦ inr r ]
      ],
      λ h. inr (right h),
      λ h. elim h [ inl here ↦ inl here | inr there ↦ inr (left there) ],
    )

-- `from, from + 1, …`, `n` numbers.
abbrev pub range : ℕ → ℕ → List ℕ
range from zero = []
range from (suc n) = from ∷ range (suc from) n

pub range-suc : (from n : ℕ) → range from (suc n) ≡ range from n ++ (from + n) ∷ []
range-suc from zero = ap (λ k. k ∷ []) (omega arith)
range-suc from (suc n) =
    ap (λ zs. from ∷ zs) (rw (range-suc (suc from) n) (ap (λ k. range (suc from) n ++ k ∷ []) e))
  where
    e : suc from + n ≡ from + suc n
    e = omega arith

-- A list is shorter than five or shows its first five elements.
abbrev pub HasFive {ℓ} : {A : Type ℓ} → List A → Type ℓ
HasFive {A} xs =
    (x : A) × (a : A) × (b : A) × (c : A) × (d : A) × (rest : List A) × (xs
      ≡ x ∷ a ∷ b ∷ c ∷ d ∷ rest)

pub five-cases {ℓ} : {A : Type ℓ} (xs : List A) → (length xs < 5) ⊎ HasFive xs
five-cases (x ∷ a ∷ b ∷ c ∷ d ∷ rest) = inr (x, a, b, c, d, rest, refl)
five-cases _ = inl (omega arith)

pub range-zero-suc : (n : ℕ) → range 0 (suc n) ≡ range 0 n ++ n ∷ []
range-zero-suc n = rw (range-suc 0 n) (ap (λ k. range 0 n ++ k ∷ []) (omega arith))
