-- ===== src/Middleware/Metadata/Pairs.antt =====
-- Metadata as a list of keys with values, in the order in which they were appended.
use g_rpcat.Base.{
  ◌≡◌, refl, ◌≢◌, List, [], ◌∷◌, ◌++◌, arith, if◌then◌else◌, length, Bool, true, ◌↔◌,
}
use g_rpcat.Base.Texts.{Text, same, same_iff, to_lower}
use g_rpcat.Middleware.Metadata.{Metadata}

abbrev pub Pairs : Type 0
Pairs = List (Text × Text)

abbrev pub same_key : Text → Text → Bool
same_key k j = same (to_lower k) (to_lower j)

abbrev pub values_of : Pairs → Text → List Text
values_of [] k = []
values_of ((j, v) ∷ md) k = let rest = values_of md k in if same_key j k then v ∷ rest else rest

abbrev pub without : Pairs → Text → Pairs
without [] k = []
without ((j, v) ∷ md) k = let rest = without md k in if same_key j k then rest else (j, v) ∷ rest

same_key_iff : (k j : Text) → (same_key k j ≡ true) ↔ (to_lower k ≡ to_lower j)
same_key_iff k j = same_iff (to_lower k) (to_lower j)

values-append :
    (md : Pairs) (k j v : Text)
    → values_of (md ++ (k, v) ∷ []) j
      ≡ (if same_key k j then values_of md j ++ v ∷ [] else values_of md j)
values-append [] k j v = ground arith
values-append ((i, w) ∷ md) k j v = ground (arith, values-append md k j v)

values_of_lower :
    (md : Pairs) (k j : Text) → to_lower k ≡ to_lower j → values_of md k ≡ values_of md j
values_of_lower [] k j e = refl
values_of_lower ((i, w) ∷ md) k j e =
    ground (arith, values_of_lower md k j e, same_key_iff i k, same_key_iff i j)

pub append_self :
    (md : Pairs) (k j v : Text)
    → to_lower k ≡ to_lower j
    → values_of (md ++ (k, v) ∷ []) j ≡ values_of md k ++ v ∷ []
append_self md k j v e =
    rw (values-append md k j v, (same_key_iff k j).1 e, values_of_lower md k j e)

pub append_ne :
    (md : Pairs) (k j v : Text)
    → to_lower k ≢ to_lower j
    → values_of (md ++ (k, v) ∷ []) j ≡ values_of md j
append_ne md k j v ne = ground (arith, values-append md k j v, same_key_iff k j)

pub without_self :
    (md : Pairs) (k j : Text) → to_lower k ≡ to_lower j → values_of (without md k) j ≡ []
without_self [] k j e = refl
without_self ((i, v) ∷ md) k j e =
    ground (arith, without_self md k j e, same_key_iff i k, same_key_iff i j)

pub without_ne :
    (md : Pairs) (k j : Text)
    → to_lower k ≢ to_lower j
    → values_of (without md k) j ≡ values_of md j
without_ne [] k j ne = refl
without_ne ((i, v) ∷ md) k j ne =
    ground (arith, without_ne md k j ne, same_key_iff i k, same_key_iff i j)

pub of_size : (md : Pairs) (k : Text) → length md ≡ 0 → values_of md k ≡ []
of_size [] k e = refl
of_size (p ∷ md) k e = absurd (omega arith)

instance abbrev pub pairs : Metadata Pairs
pairs = record {
  empty = [];
  size = length;
  lower = to_lower;
  get = values_of;
  append = λ md k v. md ++ (k, v) ∷ [];
  delete = without;
  get_of_size = of_size;
  get-empty = λ k. refl;
  get-append_self = append_self;
  get-append_ne = append_ne;
  get-delete_self = without_self;
  get-delete_ne = without_ne;
}
