-- ===== src/Proxy/Cache/Lookup.antt =====
-- What getEntry hands out.
use g_rpcat.Base.{
  ℕ, ◌+◌, ◌<◌, ◌≤◌, arith, ◌≡◌, inl, inr, true, none, some, Outcome, ok, err, Option-cases, ◌∙◌, ap,
}
use g_rpcat.Base.Texts.{Text}
use g_rpcat.Base.Dict.{lookup, insert}
use g_rpcat.Proxy.Config.{Grpc}
use g_rpcat.Proxy.Cache.Entries.{update, touch}
use g_rpcat.Proxy.Cache.Dialing.{dial_options}
use g_rpcat.Proxy.Cache.{Cache, Dialer, fast_path, slow_path, create, get_entry, pos}
use g_rpcat.Proxy.Cache.Sweep.{update_self}

module _ {g : Grpc} (new_client : Dialer g) where
  -- The answer of getEntry: an entry that the map had for the backend, marked as used; a failure
  -- to dial, which changes nothing; or the entry of a connection made just now.
  pub data Answers (now later : ℕ) (backend : Text) (c : Cache g) (r : Outcome ℕ ℕ) (d : Cache g)
      : Type 0 where
    pooled :
        (i : ℕ)
        → lookup backend c.conns ≡ some i
        → r ≡ ok i
        → d ≡ record c { heap = update i (touch now) c.heap }
        → Answers now later backend c r d
    refused :
        (e : ℕ)
        → lookup backend c.conns ≡ none
        → new_client backend (dial_options c.config) ≡ some e
        → r ≡ err e
        → d ≡ c
        → Answers now later backend c r d
    dialled :
        lookup backend c.conns ≡ none
        → new_client backend (dial_options c.config) ≡ none
        → r ≡ ok c.next
        → d.heap c.next ≡ record { last_used = later; in_flight = pos 0; open_conn = true }
        → d.next ≡ c.next + 1
        → d.conns ≡ insert backend c.next c.conns
        → Answers now later backend c r d

  pub slow_path_refused :
      (later e : ℕ) (backend : Text) (c : Cache g)
      → lookup backend c.conns ≡ none
      → new_client backend (dial_options c.config) ≡ some e
      → slow_path new_client later backend c ≡ (err e, c)
  unfolding slow_path
  slow_path_refused later e backend c missed failed = rw (missed, failed, slow_path)

  pub slow_path_dialled :
      (later : ℕ) (backend : Text) (c : Cache g)
      → lookup backend c.conns ≡ none
      → new_client backend (dial_options c.config) ≡ none
      → slow_path new_client later backend c ≡ (ok c.next, create later backend c)
  unfolding slow_path
  slow_path_dialled later backend c missed made = rw (missed, made, slow_path)

  pub get_entry_missed :
      (now later : ℕ) (backend : Text) (c : Cache g)
      → lookup backend c.conns ≡ none
      → get_entry new_client now later backend c ≡ slow_path new_client later backend c
  unfolding get_entry fast_path
  get_entry_missed now later backend c missed = rw (missed, get_entry)

  -- getEntry without other callers in between: a backend in the map is never dialled again, its
  -- entry is marked with the time; another one is dialled with the cache's options, and only if that
  -- succeeds is there a new entry, with no stream on it, under the backend.
  get_entry-Answers :
      (now later : ℕ) (backend : Text) (c : Cache g)
      → let r = get_entry new_client now later backend c in Answers now later backend c r.0 r.1
  unfolding get_entry fast_path slow_path create
  get_entry-Answers now later backend c = elim (Option-cases (lookup backend c.conns)) [
    | inr (i, found) ↦ pooled i found (rw (found, get_entry)) (rw (found, get_entry))
    | inl missed ↦
        let e = get_entry_missed now later backend c missed in
        elim (Option-cases (new_client backend (dial_options c.config))) [
          | inr (n, failed) ↦
              let e' = e ∙ slow_path_refused later n backend c missed failed in
              refused n missed failed (ap (λ r. r.0) e') (ap (λ r. r.1) e')
          | inl made ↦
              let e' = e ∙ slow_path_dialled later backend c missed made in
              dialled missed made (ap (λ r. r.0) e')
                (ap (λ r. r.1.heap c.next) e' ∙ update_self c.next _ c.heap) (ap (λ r. r.1.next) e')
                (ap (λ r. r.1.conns) e')
        ]
  ]

-- The counts of the entries that there were, and of those that were made since.
abbrev pub SameCounts : {g : Grpc} → Cache g → Cache g → Type 0
SameCounts c d =
    (j : ℕ)
    → (j < c.next → (d.heap j).in_flight ≡ (c.heap j).in_flight)
      × (c.next ≤ j → j < d.next → (d.heap j).in_flight ≡ pos 0)

module _ {g : Grpc} (new_client : Dialer g) where
  pub get_entry-SameCounts :
      (now later : ℕ) (backend : Text) (c : Cache g)
      → SameCounts c (get_entry new_client now later backend c).1
  unfolding get_entry fast_path slow_path create update
  get_entry-SameCounts now later backend c j = ground arith
