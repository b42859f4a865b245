-- ===== src/Middleware/Context/Laws.antt =====
-- The methods of a context, one against another.
use g_rpcat.Base.{
  ◌≡◌, refl, ◌≢◌, Option, none, some, true, arith, ◌++◌, ◌∷◌, [], List, if◌then◌else◌, ℕ, ◌==◌, ◌⊎◌,
  false, inl, inr, Bool-cases,
}
use g_rpcat.Base.Texts.{Text, same, same_iff}
use g_rpcat.Base.Dict.{lookup-insert, lookup, Dict}
use g_rpcat.Middleware.Metadata.{Metadata}
use g_rpcat.Middleware.Context.{
  RequestInfo, ResponseInfo, Any, State, set, get, get_string, abort, abort_with_error,
  send_response, is_aborted, add_metadata, normalize_request, string_of, codes_ok, codes_internal,
}

-- The response that AbortWithError leaves.
abbrev IsRefusal : ℕ → Text → ResponseInfo → Type 0
IsRefusal code msg r =
    (r.code ≢ codes_ok)
    × (r.code ≡ (if code == codes_ok then codes_internal else code))
    × (r.bytes ≡ none)
    × (r.msg ≡ msg)

module _ {MD : Type 0} where
  -- A value that was set is found under its key and changes no other key, also on a nil map;
  -- nothing else of the context changes.
  get-set :
      (k j : Text) (v : Any) (c : State MD)
      → (get j (set k v c) ≡ (if same k j then some v else get j c))
        × (record (set k v c) { values = c.values } ≡ c)
  unfolding get set lookup
  get-set k j v c = (by_values c.values, refl)
    where
      by_values :
          (vs : Option (Dict Any))
          → get j (set k v (record c { values = vs }))
            ≡ (if same k j then some v else get j (record c { values = vs }))
      by_values none = lookup-insert k j v []
      by_values (some m) = lookup-insert k j v m

  -- GetString after Set gives the string that was stored under the key, "" for a value that is no
  -- string, and what it gave before for every other key.
  get_string-set :
      (k j : Text) (v : Any) (c : State MD)
      → get_string j (set k v c) ≡ (if same k j then string_of (some v) else get_string j c)
  unfolding get_string
  get_string-set k j v c = ground (arith, (get-set k j v c).0)

  is_aborted-abort : (c : State MD) → is_aborted (abort c) ≡ true
  unfolding is_aborted abort
  is_aborted-abort c = ground arith

  -- AbortWithError aborts with a response whose code is never OK and is the given code, or
  -- Internal in place of OK, without data and with the message; the rest of the context stays as it was.
  abort_with_error_lem :
      (code : ℕ) (msg : Text) (c : State MD)
      → let d = abort_with_error code msg c in
        (is_aborted d ≡ true)
        × ((r : ResponseInfo) × (d.response ≡ some r) × IsRefusal code msg r)
        × (record d { response = c.response; index = c.index } ≡ c)
  unfolding abort_with_error is_aborted
  abort_with_error_lem code msg c =
      (ground arith, (_, refl, (ground arith, refl, refl, refl)), refl)

  -- SendResponse aborts with an OK response that holds the data, empty data for nil; so its data
  -- is never nil.
  send_response_lem :
      (bytes : Option (List ℕ)) (c : State MD)
      → let d = send_response bytes c in
        (is_aborted d ≡ true)
        × ((r : ResponseInfo) × (d.response ≡ some r)
            × (r.code ≡ codes_ok)
            × (r.bytes ≡ some (elim bytes [ none ↦ [] | some b ↦ b ])))
        × (record d { response = c.response; index = c.index } ≡ c)
  unfolding send_response is_aborted
  send_response_lem bytes c = (ground arith, (_, refl, refl, refl), refl)

module _ {MD : Type 0} ⦃m : Metadata MD⦄ where
  -- The request that a context starts with.
  abbrev IsNormalOf : Option (RequestInfo MD) → RequestInfo MD → Type 0
  IsNormalOf none r =
      (r.service ≡ []) × (r.method ≡ []) × (r.metadata ≡ some m.empty) × (r.first_payload ≡ none)
  IsNormalOf (some req) r =
      (record r { metadata = req.metadata } ≡ req)
      × (r.metadata ≡ some (elim req.metadata [ none ↦ m.empty | some md ↦ md ]))

  -- normalizeRequest gives a request with metadata: an empty request for nil, and otherwise the
  -- given one, with empty metadata in place of nil.
  normalize_request-IsNormalOf : (r : Option (RequestInfo MD)) → IsNormalOf r (normalize_request r)
  unfolding normalize_request
  normalize_request-IsNormalOf none = (refl, refl, refl, refl)
  normalize_request-IsNormalOf (some req) = by_metadata req.metadata
    where
      by_metadata :
          (o : Option MD)
          → IsNormalOf
              (some (record req { metadata = o }))
              (normalize_request (some (record req { metadata = o })))
      by_metadata none = (refl, refl)
      by_metadata (some md) = (refl, refl)

  -- On a context with a request and metadata AddMetadata does not panic: the request's metadata
  -- gains the value at the end of its key (keys count in lower case), keeps every other key, and
  -- nothing else changes.
  add_metadata_lem :
      (k j v : Text) (c : State MD) (req : RequestInfo MD) (md : MD)
      → c.request ≡ some req
      → req.metadata ≡ some md
      → (md' : MD) × (add_metadata k v c
          ≡ some (record c { request = some (record req { metadata = some md' }) }))
        × (m.get md' j
            ≡ (if same (m.lower k) (m.lower j) then m.get md k ++ v ∷ [] else m.get md j))
  unfolding add_metadata
  add_metadata_lem k j v c req md e f =
      (m.append md k v, ground arith, by_key (Bool-cases (same (m.lower k) (m.lower j))))
    where
      by_key :
          (same (m.lower k) (m.lower j) ≡ true) ⊎ (same (m.lower k) (m.lower j) ≡ false)
          → m.get (m.append md k v) j
            ≡ (if same (m.lower k) (m.lower j) then m.get md k ++ v ∷ [] else m.get md j)
      by_key (inl hit) = rw hit (m.get-append_self md k j v ((same_iff _ _).0 hit))
      by_key (inr miss) =
          rw miss (m.get-append_ne md k j v (ground (arith, same_iff (m.lower k) (m.lower j))))
