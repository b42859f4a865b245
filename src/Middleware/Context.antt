-- ===== src/Middleware/Context.antt =====
-- middleware/context.go: the context of one request, without the chain (see Chain). The methods
-- that take c.mu are atomic, so the lock needs no state of its own.
pub mod Laws
use g_rpcat.Base.{
  ℕ, ◌-◌, ◌/◌, ◌^◌, Bool, true, false, List, [], ◌∷◌, Option, none, some, if◌then◌else◌, ◌==◌, leb,
}
use g_rpcat.Base.Int.{ℤ, pos, negsuc}
use g_rpcat.Base.Texts.{Text, codes, is_empty}
use g_rpcat.Base.Dict.{Dict, lookup, insert}
use g_rpcat.Middleware.Metadata.{Metadata}

-- google.golang.org/grpc/codes: OK and Internal have these numbers.
abbrev pub codes_ok : ℕ
codes_ok = 0

abbrev pub codes_internal : ℕ
codes_internal = 13

-- math.MaxInt >> 1, on 64 bits
unfoldable pub abort_index : ℕ
abort_index = (2 ^ 63 - 1) / 2

-- `metadata = none` is a nil map.
pub record RequestInfo (MD : Type 0) : Type 0 where
  pub service : Text
  pub method : Text
  pub metadata : Option MD
  pub first_payload : Option (List ℕ)

pub record ResponseInfo : Type 0 where
  pub bytes : Option (List ℕ)
  pub code : ℕ
  pub msg : Text

-- A value of type `any`: a string, or something else that the proxy does not look into.
pub data Any : Type 0 where
  a_string : Text → Any
  another : ℕ → Any

-- A Context but for its middlewares; `values = none` is a nil map, and so is a nil pointer.
pub record State (MD : Type 0) : Type 0 where
  pub request : Option (RequestInfo MD)
  pub response : Option ResponseInfo
  pub backend : Text
  pub values : Option (Dict Any)
  pub index : ℤ

abbrev pub string_of : Option Any → Text
string_of (some (a_string s)) = s
string_of _ = []

-- i >= m, for an `int` and a length
abbrev pub reaches : ℤ → ℕ → Bool
reaches (pos n) m = leb m n
reaches (negsuc n) m = false

module _ {MD : Type 0} where
  unfoldable pub set : Text → Any → State MD → State MD
  set key value c = record c {
    values = some (insert key value (elim c.values [ none ↦ [] | some m ↦ m ]));
  }

  -- Reading a nil map finds nothing.
  unfoldable pub get : Text → State MD → Option Any
  get key c = elim c.values [ none ↦ none | some m ↦ lookup key m ]

  unfoldable pub get_string : Text → State MD → Text
  unfolding get
  get_string key c = string_of (get key c)

  unfoldable pub abort : State MD → State MD
  abort c = record c { index = pos abort_index }

  unfoldable pub abort_with_error : ℕ → Text → State MD → State MD
  unfolding abort
  abort_with_error code msg c =
      let code' : ℕ = if code == codes_ok then codes_internal else code in
      abort (record c { response = some (record { bytes = none; code = code'; msg = msg }) })

  -- A nil slice becomes an empty one.
  unfoldable pub send_response : Option (List ℕ) → State MD → State MD
  unfolding abort
  send_response bytes c =
      let bytes' : List ℕ = elim bytes [ none ↦ [] | some b ↦ b ] in
      abort
        (record c { response = some (record { bytes = some bytes'; code = codes_ok; msg = [] }) })

  -- c.index >= abortIndex
  unfoldable pub is_aborted : State MD → Bool
  is_aborted c = reaches c.index abort_index

  unfoldable pub set_backend : Text → State MD → State MD
  set_backend backend c = record c { backend = backend }

  -- `none` is the panic of a nil Request.
  unfoldable pub add_metadata : ⦃m : Metadata MD⦄ → Text → Text → State MD → Option (State MD)
  add_metadata ⦃m⦄ key value c = elim c.request [
    | none ↦ none
    | some req ↦
        let md : MD = elim req.metadata [ none ↦ m.empty | some md ↦ md ] in
        some (record c { request = some (record req { metadata = some (m.append md key value) }) })
  ]

  unfoldable pub normalize_request : ⦃m : Metadata MD⦄ → Option (RequestInfo MD) → RequestInfo MD
  normalize_request ⦃m⦄ none = record {
    service = [];
    method = [];
    metadata = some m.empty;
    first_payload = none;
  }
  normalize_request ⦃m⦄ (some req) = elim req.metadata [
    | none ↦ record req { metadata = some m.empty }
    | some md ↦ req
  ]
