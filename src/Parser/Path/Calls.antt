-- ===== src/Parser/Path/Calls.antt =====
-- The names of calls and the paths that stand for them are the same type.
use std.Equiv.{Iso, iso_to_equiv}
use std.Univalence.{iso_to_path, ua-β, ua-β⁻¹}
use std.Path.{transport, transport⁻¹}
use mathlib.Core.HLevel.{Σ_prop_path, ×_prop}
use g_rpcat.Base.{◌≡◌, refl, sym, ◌∙◌, subst, inl, inr, [], ◌∷◌, Outcome, ok, err, panic, ℕ, ap}
use g_rpcat.Base.Texts.{Text, Lacks}
use g_rpcat.Parser.Path.{PathError, parse_grpc_path, format_grpc_path}
use g_rpcat.Parser.Path.Laws.{IsName, IsPathOf, parse_grpc_path_iff, parse-format}

-- A service and a method that are names.
abbrev pub Call : Type 0
Call = (c : Text × Text) × (IsName c.0 × IsName c.1)

abbrev IsSplit : Outcome PathError (Text × Text) → Type 0
IsSplit (ok c) = Unit
IsSplit (err e) = ⊥
IsSplit panic = ⊥

abbrev HasSlash : Text → Type 0
HasSlash [] = ⊥
HasSlash (c ∷ p) = c ≡ b'/'

-- A path that is split, and has its leading slash.
abbrev pub CallPath : Type 0
CallPath = (p : Text) × (HasSlash p × IsSplit (parse_grpc_path p))

Lacks-IsProp : (sep : ℕ) (s : Text) → IsProp (Lacks sep s)
Lacks-IsProp sep [] = hlevel
Lacks-IsProp sep (c ∷ s) = hlevel (Lacks-IsProp sep s)

IsName-IsProp : (s : Text) → IsProp (IsName s)
IsName-IsProp s = hlevel (Lacks-IsProp b'/' s)

IsSplit-IsProp : (r : Outcome PathError (Text × Text)) → IsProp (IsSplit r)
IsSplit-IsProp (ok c) = hlevel
IsSplit-IsProp (err e) = hlevel
IsSplit-IsProp panic = hlevel

HasSlash-IsProp : (p : Text) → IsProp (HasSlash p)
HasSlash-IsProp [] = hlevel
HasSlash-IsProp (c ∷ p) = hlevel

-- FormatGRPCPath, and ParseGRPCPath where it succeeds.
abbrev format_call : Call → Text
format_call c = format_grpc_path c.0.0 c.0.1

split_of : (r : Outcome PathError (Text × Text)) → IsSplit r → Text × Text
split_of (ok c) h = c
split_of (err e) h = absurd h
split_of panic h = absurd h

split_of-ok : (r : Outcome PathError (Text × Text)) (h : IsSplit r) → r ≡ ok (split_of r h)
unfolding split_of
split_of-ok (ok c) h = refl
split_of-ok (err e) h = absurd h
split_of-ok panic h = absurd h

-- The service and the method of a path.
abbrev parse_call : CallPath → Text × Text
parse_call p = split_of (parse_grpc_path p.0) p.1.1

parse_call-ok : (p : CallPath) → parse_grpc_path p.0 ≡ ok (parse_call p)
parse_call-ok p = split_of-ok (parse_grpc_path p.0) p.1.1

ok_path : (c d : Text × Text) (r : Outcome PathError (Text × Text)) → r ≡ ok c → r ≡ ok d → c ≡ d
ok_path c d r e f = cc

to_path : Call → CallPath
unfolding format_grpc_path
to_path c = (format_call c, (refl, subst IsSplit (sym (parse-format c.0.0 c.0.1 c.1.0 c.1.1)) tt))

of_path : CallPath → Call
of_path p =
    let (s, m, form) =
      (parse_grpc_path_iff p.0 (parse_call p).0 (parse_call p).1).0 (parse_call-ok p) in
    (parse_call p, (s, m))

-- A name does not begin with a slash.
slashed : (p s m : Text) → HasSlash p → IsName s → IsPathOf p s m → p ≡ format_grpc_path s m
slashed p s m h n (inl e) = e
slashed p [] m h n (inr e) = absurd (n.0 refl)
slashed [] (c ∷ s) m h n (inr e) = absurd h
slashed (d ∷ p) (c ∷ s) m h n (inr e) = let same : d ≡ c = cc in absurd (n.1.0 (sym same ∙ h))

to-of : (p : CallPath) → to_path (of_path p) ≡ p
unfolding to_path of_path
to-of p =
    let (s, m, form) =
      (parse_grpc_path_iff p.0 (parse_call p).0 (parse_call p).1).0 (parse_call-ok p) in
    Σ_prop_path {B = λ q. HasSlash q × IsSplit (parse_grpc_path q)}
      (λ q. ×_prop (HasSlash-IsProp q) (IsSplit-IsProp (parse_grpc_path q)))
      (sym (slashed p.0 (parse_call p).0 (parse_call p).1 p.1.0 s form))

of-to : (c : Call) → of_path (to_path c) ≡ c
unfolding to_path of_path
of-to c =
    Σ_prop_path {B = λ d. IsName d.0 × IsName d.1}
      (λ d. ×_prop (IsName-IsProp d.0) (IsName-IsProp d.1))
      (ok_path (parse_call (to_path c)) c.0 (parse_grpc_path (format_call c))
        (parse_call-ok (to_path c)) (parse-format c.0.0 c.0.1 c.1.0 c.1.1))

abbrev call_iso : Iso Call CallPath
call_iso = record { fun = to_path; inv = of_path; rinv = to-of; linv = of-to }

-- The calls and the paths that are split and have their leading slash are one type: there is an
-- equality of the two types along which FormatGRPCPath is the way there, and the service and the
-- method that ParseGRPCPath gives are the way back.
pub call_path :
    (e : Call ≡ CallPath) × ((c : Call) → (transport e c).0 ≡ format_grpc_path c.0.0 c.0.1)
    × ((p : CallPath) → parse_grpc_path p.0 ≡ ok (transport⁻¹ e p).0)
unfolding to_path of_path
call_path = (
  iso_to_path call_iso,
  λ c. ap (λ q. q.0) (ua-β (iso_to_equiv call_iso) c),
  λ p. parse_call-ok p ∙ sym (ap (λ d. ok d.0) (ua-β⁻¹ (iso_to_equiv call_iso) p)),
)
