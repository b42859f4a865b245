-- ===== src/Base/Texts.antt =====
-- Go strings as lists of code points, and the functions of package `strings` that the code calls.
use Prim.Native.Char.{code}
use Prim.Native.String.{String}
use Prim.Native.Nat.{ℕ, ◌+◌}
use mathlib.Core.Path.{◌≡◌}
use mathlib.Core.Logic.{◌↔◌, ◌≢◌, inl, inr}
use mathlib.Core.Bool.{Bool, true, false, ◌&&◌, ◌||◌}
use mathlib.Core.List.{List, [], ◌∷◌, ◌++◌, reverse}
use mathlib.Core.Option.{Option, none, some}
use native.Mathlib.Omega.{arith}
use g_rpcat.Base.Tests.{◌==◌, if◌then◌else◌, leb, Option-cases}

abbrev pub Text : Type 0
Text = List ℕ

abbrev pub codes : String → Text
codes String.[] = []
codes (String.◌∷◌ c s) = code c ∷ codes s

abbrev pub is_empty {ℓ} : {A : Type ℓ} → List A → Bool
is_empty [] = true
is_empty (_ ∷ _) = false

-- s == t
unfoldable pub same : Text → Text → Bool
same [] [] = true
same (c ∷ s) (d ∷ t) = c == d && same s t
same _ _ = false

pub same_iff : (s t : Text) → (same s t ≡ true) ↔ (s ≡ t)
unfolding same
same_iff [] [] = ground arith
same_iff (c ∷ s) (d ∷ t) = ground (arith, same_iff s t)
same_iff [] (d ∷ t) = ground arith
same_iff (c ∷ s) [] = ground arith

-- strings.CutPrefix(s, prefix); `none` when `s` has no such prefix.
unfoldable pub cut_prefix : Text → Text → Option Text
cut_prefix s [] = some s
cut_prefix [] (d ∷ prefix) = none
cut_prefix (c ∷ s) (d ∷ prefix) = if c == d then cut_prefix s prefix else none

-- strings.TrimPrefix(s, prefix)
unfoldable pub trim_prefix : Text → Text → Text
unfolding cut_prefix
trim_prefix s prefix = elim (cut_prefix s prefix) [ none ↦ s | some rest ↦ rest ]

-- strings.Cut(s, sep) for a separator of one character: what stands before and after its first
-- occurrence; `none` when there is none.
unfoldable pub cut : Text → ℕ → Option (Text × Text)
cut [] sep = none
cut (c ∷ s) sep =
    if c == sep
    then some ([], s)
    else elim (cut s sep) [ none ↦ none | some (before, after) ↦ some (c ∷ before, after) ]

-- strings.Contains(s, sep) for a text of one character.
unfoldable pub contains : Text → ℕ → Bool
contains [] sep = false
contains (c ∷ s) sep = c == sep || contains s sep

-- unicode.IsSpace
unfoldable pub is_space : ℕ → Bool
is_space c =
    leb 0x09 c && leb c 0x0d
    || c == 0x20
    || c == 0x85
    || c == 0xa0
    || c == 0x1680
    || leb 0x2000 c && leb c 0x200a
    || c == 0x2028
    || c == 0x2029
    || c == 0x202f
    || c == 0x205f
    || c == 0x3000

unfoldable pub trim_left : Text → Text
trim_left [] = []
trim_left (c ∷ s) = if is_space c then trim_left s else c ∷ s

-- strings.TrimSpace
unfoldable pub trim_space : Text → Text
unfolding trim_left is_space
trim_space s = reverse (trim_left (reverse (trim_left s)))

-- strings.ToLower on ASCII
unfoldable pub to_lower : Text → Text
to_lower [] = []
to_lower (c ∷ s) = (if leb b'A' c && leb c b'Z' then c + 32 else c) ∷ to_lower s

-- A text in which a character does not occur.
abbrev pub Lacks : ℕ → Text → Type 0
Lacks sep [] = Unit {0}
Lacks sep (c ∷ s) = (c ≢ sep) × Lacks sep s

pub contains_iff : (s : Text) (sep : ℕ) → (contains s sep ≡ false) ↔ Lacks sep s
unfolding contains
contains_iff [] sep = ground arith
contains_iff (c ∷ s) sep = ground (arith, contains_iff s sep)

-- `cut` finds the first separator, wherever what follows it.
pub cut-append : (s t : Text) (sep : ℕ) → Lacks sep s → cut (s ++ sep ∷ t) sep ≡ some (s, t)
unfolding cut
cut-append [] t sep h = ground arith
cut-append (c ∷ s) t sep h = ground (arith, cut-append s t sep)

pub cut_sound :
    (s : Text) (sep : ℕ) {before after : Text}
    → cut s sep ≡ some (before, after)
    → (s ≡ before ++ sep ∷ after) × Lacks sep before
unfolding cut
cut_sound [] sep e = cc
cut_sound (c ∷ s) sep {before} {after} e = elim (Option-cases (cut s sep)) [
  | inl missed ↦ ground arith
  | inr ((b, a), found) ↦ ground (arith, cut_sound s sep {before = b} {after = a} found)
]
