-- ===== src/Proxy/Forwarder/Setup.antt =====
-- The content subtype and the metadata that the backend gets, and the errors before the streams run.
use g_rpcat.Base.{
  ◌≡◌, ◌≢◌, ◌↔◌, true, false, [], ◌∷◌, ◌++◌, some, arith, sym, inl, inr, if◌then◌else◌,
  Option-cases, Bool-cases, ◌⊎◌,
}
use g_rpcat.Base.Texts.{Text, codes, cut_prefix, to_lower, same, same_iff}
use g_rpcat.Middleware.Metadata.{Metadata}
use g_rpcat.Proxy.Forwarder.{content_subtype, subtype_of, outgoing}

pub cut_prefix_iff : (s p rest : Text) → (cut_prefix s p ≡ some rest) ↔ (s ≡ p ++ rest)
unfolding cut_prefix
cut_prefix_iff s [] rest = ground arith
cut_prefix_iff [] (d ∷ p) rest = ground arith
cut_prefix_iff (c ∷ s) (d ∷ p) rest = ground (arith, cut_prefix_iff s p rest)

subtype_of_iff :
    (rest sub : Text)
    → sub ≢ []
    → (subtype_of rest ≡ sub) ↔ ((t : Text) × (rest ≡ b'+' ∷ t) × (t ≢ []) × (sub ≡ to_lower t))
unfolding subtype_of
subtype_of_iff [] sub h = (λ e. absurd (h (sym e)), λ (x, p, q, r). ground arith)
subtype_of_iff (c ∷ []) sub h = (λ e. absurd (h (sym e)), λ (x, p, q, r). ground arith)
subtype_of_iff (c ∷ d ∷ t) sub h =
    (λ e. (d ∷ t, ground arith, ground arith, ground arith), λ (x, p, q, r). ground arith)

-- A subtype is passed on exactly when the content type is "application/grpc+" and a text that is
-- not empty, and it is that text in lower case.
content_subtype_iff :
    (content_type subtype : Text)
    → subtype ≢ []
    → (content_subtype content_type ≡ subtype) ↔ (
        (t : Text) × (content_type ≡ codes "application/grpc+" ++ t)
        × (t ≢ [])
        × (subtype ≡ to_lower t))
unfolding content_subtype
content_subtype_iff ct sub h = elim (Option-cases (cut_prefix ct (codes "application/grpc"))) [
  | inl missing ↦ (
    λ e. absurd (h (ground arith)),
    λ (t, p, q, r). ground (arith, cut_prefix_iff ct (codes "application/grpc") (b'+' ∷ t)),
  )
  | inr (rest, found) ↦
      let split : ct ≡ codes "application/grpc" ++ rest = (cut_prefix_iff _ _ _).0 found in
      let by_rest = subtype_of_iff rest sub h in
      (
        λ e. let (t, p, q, r) = by_rest.0 (ground arith) in (t, ground arith, q, r),
        λ (t, p, q, r).
            let tail : rest ≡ b'+' ∷ t = ground arith in ground (arith, by_rest.1 (t, tail, q, r)),
      )
]

module _ {MD : Type 0} ⦃m : Metadata MD⦄ where
  get-delete :
      (k j : Text) (md : MD)
      → m.get (m.delete md k) j ≡ (if same (m.lower k) (m.lower j) then [] else m.get md j)
  get-delete k j md = by_key (Bool-cases (same (m.lower k) (m.lower j)))
    where
      by_key :
          (same (m.lower k) (m.lower j) ≡ true) ⊎ (same (m.lower k) (m.lower j) ≡ false)
          → m.get (m.delete md k) j ≡ (if same (m.lower k) (m.lower j) then [] else m.get md j)
      by_key (inl hit) = rw hit (m.get-delete_self md k j ((same_iff _ _).0 hit))
      by_key (inr miss) =
          rw miss (m.get-delete_ne md k j (ground (arith, same_iff (m.lower k) (m.lower j))))

  -- The metadata that the backend gets: none if the request has none, and otherwise what the request
  -- has, but for the client's grpc-accept-encoding, which is never passed on.
  outgoing_lem :
      (md out : MD) (k : Text)
      → outgoing (some md) ≡ some out
      → m.get out k
        ≡ (if same (m.lower (codes "grpc-accept-encoding")) (m.lower k) then [] else m.get md k)
  unfolding outgoing
  outgoing_lem md out k h =
      let deleted : out ≡ m.delete md (codes "grpc-accept-encoding") = ground arith in
      rw deleted (get-delete (codes "grpc-accept-encoding") k md)
