-- ===== src/Proxy/Forwarder.antt =====
-- proxy/forwarder.go: what Forward does before the two directions run (see Streams for those), and
-- contentSubtype. The values of a content-type header are ASCII.
pub mod Errors
pub mod Setup
pub mod Streams
mod Tests
use g_rpcat.Base.{
  ℕ, Bool, true, false, List, [], ◌∷◌, Option, none, some, Outcome, ok, err, panic, ◌>>=◌, ltb,
  ◌==◌, if◌then◌else◌,
}
use g_rpcat.Base.Texts.{Text, codes, cut_prefix, to_lower, is_empty}
use g_rpcat.Middleware.Metadata.{Metadata}
use g_rpcat.Middleware.Context.{codes_internal}
use g_rpcat.Proxy.Forwarder.Errors.{
  Error, eof, status, other, formatted, is_eof, is_status, codes_unavailable,
}

-- What follows "application/grpc": at least two characters, of which the first is a '+'.
subtype_of : Text → Text
subtype_of [] = []
subtype_of (c ∷ []) = []
subtype_of (c ∷ d ∷ rest) = if c == b'+' then to_lower (d ∷ rest) else []

unfoldable pub content_subtype : Text → Text
unfolding subtype_of
content_subtype content_type = elim (cut_prefix content_type (codes "application/grpc")) [
  | none ↦ []
  | some rest ↦ subtype_of rest
]

-- The first value of a header, if there is one.
abbrev pub first : List Text → Text
first [] = []
first (v ∷ vs) = v

-- sendFirstFrame, given what SendMsg returns: the error it gives, if any.
unfoldable pub send_first_frame : Option Error → Option Error
send_first_frame none = none
send_first_frame (some e) =
    if is_eof e
    then none
    else if is_status e
    then some e
    else some (formatted codes_internal (codes "failed to send first frame") e)

module _ {MD : Type 0} ⦃m : Metadata MD⦄ where
  -- The content subtype that the call of the backend is made with, if any.
  unfoldable pub call_subtype : Option MD → Option Text
  unfolding content_subtype
  call_subtype none = none
  call_subtype (some md) =
      if ltb 0 (m.size md)
      then (let subtype = content_subtype (first (m.get md (codes "content-type"))) in
          if is_empty subtype then none else some subtype)
      else none

  -- The outgoing metadata of the backend's stream, if any.
  unfoldable pub outgoing : Option MD → Option MD
  outgoing none = none
  outgoing (some md) =
      if ltb 0 (m.size md) then some (m.delete md (codes "grpc-accept-encoding")) else none

  -- Forward up to the start of the two directions. It is given what the cache's acquire returned,
  -- what grpc.NewClientStream returns for a subtype and metadata, and what SendMsg of a frame does.
  unfoldable pub start_forward :
      Outcome Error ℕ
      → (Option Text → Option MD → Option Error)
      → (List ℕ → Option Error)
      → Option MD
      → Option (List ℕ)
      → Outcome Error ℕ
  unfolding call_subtype outgoing send_first_frame
  start_forward (err e) new_stream send md frame =
      err (formatted codes_unavailable (codes "failed to connect to backend") e)
  start_forward panic new_stream send md frame = panic
  start_forward (ok i) new_stream send md frame =
      elim (new_stream (call_subtype md) (outgoing md)) [
        | some e ↦
            if is_status e
            then err e
            else err (formatted codes_internal (codes "failed to create client stream") e)
        | none ↦ elim frame [
          | none ↦ ok i
          | some f ↦ elim (send_first_frame (send f)) [ none ↦ ok i | some e ↦ err e ]
        ]
      ]
