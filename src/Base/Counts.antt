-- ===== src/Base/Counts.antt =====
-- How often a number stands in a list.
use g_rpcat.Base.{ℕ, suc, List, [], ◌∷◌, ◌≡◌, refl, if◌then◌else◌, ◌==◌}

unfoldable pub count : ℕ → List ℕ → ℕ
count i [] = 0
count i (j ∷ xs) = if i == j then suc (count i xs) else count i xs

pub count-cons :
    (i j : ℕ) (xs : List ℕ) → count i (j ∷ xs) ≡ (if i == j then suc (count i xs) else count i xs)
unfolding count
count-cons i j xs = refl
