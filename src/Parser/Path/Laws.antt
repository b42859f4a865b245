-- ===== src/Parser/Path/Laws.antt =====
-- Which paths `ParseGRPCPath` accepts, and that it is the inverse of `FormatGRPCPath`.
use g_rpcat.Base.{
  ◌≡◌, refl, ◌≢◌, ◌↔◌, ◌⊎◌, inl, inr, false, ◌||◌, [], ◌∷◌, ◌++◌, Option, none, some, ok, err,
  arith, Bool-cases,
}
use g_rpcat.Base.Texts.{
  Text, is_empty, cut_prefix, trim_prefix, cut, contains, Lacks, contains_iff, cut-append,
  cut_sound,
}
use g_rpcat.Parser.Path.{invalid_path, parse_grpc_path, format_grpc_path, check_names}

-- A service or a method: not empty, and without a slash.
abbrev pub IsName : Text → Type 0
IsName s = (s ≢ []) × Lacks b'/' s

-- The text of a path, whose leading slash may be missing.
abbrev pub IsPathOf : Text → Text → Text → Type 0
IsPathOf path service method =
    (path ≡ format_grpc_path service method) ⊎ (path ≡ service ++ b'/' ∷ method)

is_empty_iff : (s : Text) → (is_empty s ≡ false) ↔ (s ≢ [])
is_empty_iff [] = ground arith
is_empty_iff (c ∷ s) = ground arith

trim_slash-cons : (s : Text) → trim_prefix (b'/' ∷ s) (b'/' ∷ []) ≡ s
unfolding trim_prefix cut_prefix
trim_slash-cons s = refl

trim_slash_of_IsName : (s t : Text) → IsName s → trim_prefix (s ++ t) (b'/' ∷ []) ≡ s ++ t
unfolding trim_prefix cut_prefix
trim_slash_of_IsName [] t h = absurd (h.0 refl)
trim_slash_of_IsName (c ∷ s) t h = ground arith

-- Only a leading slash is removed.
trim_slash-cases :
    (p : Text) → (p ≡ trim_prefix p (b'/' ∷ [])) ⊎ (p ≡ b'/' ∷ trim_prefix p (b'/' ∷ []))
unfolding trim_prefix cut_prefix
trim_slash-cases [] = inl refl
trim_slash-cases (c ∷ s) = ground arith

check_names_complete :
    (p s m : Text) → IsName s → IsName m → check_names p (some (s, m)) ≡ ok (s, m)
unfolding check_names
check_names_complete p s m hs hm =
    ground (arith, is_empty_iff s, is_empty_iff m, contains_iff m b'/')

check_names_sound :
    (p : Text) (o : Option (Text × Text)) {s m : Text}
    → check_names p o ≡ ok (s, m)
    → (o ≡ some (s, m)) × (s ≢ []) × IsName m
unfolding check_names
check_names_sound p none e = cc
check_names_sound p (some (a, b)) e =
    ground (arith, is_empty_iff a, is_empty_iff b, contains_iff b b'/')

parse_sound : (p s m : Text) → parse_grpc_path p ≡ ok (s, m) → IsName s × IsName m × IsPathOf p s m
unfolding parse_grpc_path format_grpc_path
parse_sound p s m e =
    let (found, s_full, m_name) = check_names_sound _ _ e in
    let (text, s_lacks) = cut_sound _ b'/' found in
    ((s_full, s_lacks), m_name, ground (arith, trim_slash-cases p))

parse_complete :
    (p s m : Text) → IsName s → IsName m → IsPathOf p s m → parse_grpc_path p ≡ ok (s, m)
unfolding parse_grpc_path format_grpc_path
parse_complete p s m hs hm (inl e) =
    rw (e, trim_slash-cons (s ++ b'/' ∷ m), cut-append s m b'/' hs.1)
      (check_names_complete _ s m hs hm)
parse_complete p s m hs hm (inr e) =
    rw (e, trim_slash_of_IsName s (b'/' ∷ m) hs, cut-append s m b'/' hs.1)
      (check_names_complete _ s m hs hm)

-- A path is split into a service and a method exactly when both are names (not empty, without a
-- slash) and the path is `/service/method` or `service/method`.
pub parse_grpc_path_iff :
    (p s m : Text) → (parse_grpc_path p ≡ ok (s, m)) ↔ (IsName s × IsName m × IsPathOf p s m)
parse_grpc_path_iff p s m =
    (λ e. parse_sound p s m e, λ (hs, hm, hp). parse_complete p s m hs hm hp)

-- Formatting a service and a method that are names and parsing the path gives them back.
pub parse-format :
    (s m : Text) → IsName s → IsName m → parse_grpc_path (format_grpc_path s m) ≡ ok (s, m)
parse-format s m hs hm = parse_complete _ s m hs hm (inl refl)

check_names-cases :
    (q : Text) (o : Option (Text × Text))
    → ((s : Text) × (m : Text) × (check_names q o ≡ ok (s, m)))
      ⊎ (check_names q o ≡ err (invalid_path q))
unfolding check_names
check_names-cases q none = inr refl
check_names-cases q (some (s, m)) =
    elim (Bool-cases (is_empty s || is_empty m || contains m b'/')) [
      | inl bad ↦ inr (rw bad)
      | inr good ↦ inl (s, m, rw good)
    ]

-- Every path is either split or refused, without a panic; the error shows the path, without its
-- leading slash if it has one.
pub parse_grpc_path_total :
    (p : Text)
    → ((s : Text) × (m : Text) × (parse_grpc_path p ≡ ok (s, m)))
      ⊎ ((q : Text) × (parse_grpc_path p ≡ err (invalid_path q)) × ((p ≡ q) ⊎ (p ≡ b'/' ∷ q)))
unfolding parse_grpc_path
parse_grpc_path_total p =
    let q : Text = trim_prefix p (b'/' ∷ []) in
    elim (check_names-cases q (cut q b'/')) [
      | inl done ↦ inl done
      | inr refused ↦ inr (q, refused, trim_slash-cases p)
    ]
