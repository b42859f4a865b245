-- ===== src/Proxy/Cache/Invariant.antt =====
-- The cache holds one open connection for each key, and every open connection is in the cache.
use g_rpcat.Base.{
  ℕ, ◌<◌, ◌≡◌, refl, sym, ◌≢◌, inl, inr, true, false, List, Option, none, some, arith, ◌==◌,
  Bool-cases, Option-cases, ==_iff, ok, err, panic, ◌∙◌, subst,
}
use g_rpcat.Base.Texts.{Text, same_iff}
use g_rpcat.Base.Dict.{
  lookup, IsUnique, lookup-insert, lookup-erase, insert-IsUnique, erase-IsUnique,
}
use g_rpcat.Proxy.Config.{Grpc}
use g_rpcat.Proxy.Cache.Entries.{Entry, update, close_conn, touch}
use g_rpcat.Proxy.Cache.Dialing.{dial_options}
use g_rpcat.Proxy.Cache.{
  Cache, Dialer, Found, new_connection_cache, fast_path, slow_path, create, get_entry, pin, stamp,
  unpin, acquire, remove, pin_found,
}
use g_rpcat.Proxy.Cache.Sweep.{IsOneToOne, update_self, update-ne}

pub record IsWellFormed {g : Grpc} (c : Cache g) : Type 0 where
  pub unique : IsUnique c.conns
  pub one_to_one : IsOneToOne c.conns
  -- What the map points to was made, and its connection is open.
  pub live :
      (k : Text) (i : ℕ) → lookup k c.conns ≡ some i → (i < c.next) × ((c.heap i).open_conn ≡ true)
  -- An open connection is in the map: nothing else could close it.
  pub no_leak :
      (i : ℕ) → i < c.next → (c.heap i).open_conn ≡ true → (k : Text) × (lookup k c.conns ≡ some i)

old_ne : (a b : ℕ) → (a == b) ≡ false → a ≢ b
old_ne a b h = ground arith

module _ {g : Grpc} where
  pub new_connection_cache-IsWellFormed :
      (ka : Option g.Keepalive) (creds : Option g.Creds) (opts : List g.DialOption)
      → IsWellFormed (new_connection_cache {g = g} ka creds opts)
  unfolding new_connection_cache lookup
  new_connection_cache-IsWellFormed ka creds opts = record {
    unique = tt;
    one_to_one = λ j k i e f. cc;
    live = λ k i e. cc;
    no_leak = λ i h e. absurd (omega arith);
  }

  -- A change to an entry that leaves its connection alone.
  update-IsWellFormed :
      (i : ℕ) (f : Entry → Entry) (c : Cache g)
      → ((e : Entry) → (f e).open_conn ≡ e.open_conn)
      → IsWellFormed c
      → IsWellFormed (record c { heap = update i f c.heap })
  update-IsWellFormed i f c same_conn w = record {
    unique = w.unique;
    one_to_one = w.one_to_one;
    live = λ k j e. ((w.live k j e).0, unchanged j ∙ (w.live k j e).1);
    no_leak = λ j h e. w.no_leak j h (sym (unchanged j) ∙ e);
  }
    where
      unchanged : (j : ℕ) → (update i f c.heap j).open_conn ≡ (c.heap j).open_conn
      unchanged j =
          ground (
            arith,
            update_self i f c.heap,
            update-ne i j f c.heap,
            same_conn (c.heap j),
            ==_iff i j,
          )

  create-IsWellFormed :
      (now : ℕ) (backend : Text) (c : Cache g)
      → lookup backend c.conns ≡ none
      → IsWellFormed c
      → IsWellFormed (create now backend c)
  unfolding create update
  create-IsWellFormed now backend c fresh w = record {
    unique = insert-IsUnique backend c.next c.conns w.unique;
    one_to_one = λ j k i e f. ground (
      arith,
      lookup-insert backend j c.next c.conns,
      lookup-insert backend k c.next c.conns,
      same_iff backend j,
      same_iff backend k,
      w.one_to_one j k i,
      w.live j i,
      w.live k i,
    );
    live = λ k i e. ground (arith, lookup-insert backend k c.next c.conns, w.live k i);
    no_leak = λ i h e. elim (Bool-cases (c.next == i)) [
      | inl new ↦ (
        backend,
        ground (arith, lookup-insert backend backend c.next c.conns, same_iff backend backend),
      )
      | inr old ↦
          let (k, found) = w.no_leak i (omega (arith, old_ne c.next i old)) (ground arith) in
          (k, ground (arith, lookup-insert backend k c.next c.conns, same_iff backend k))
    ];
  }

  pub fast_path-IsWellFormed :
      (now i : ℕ) (backend : Text) (c d : Cache g)
      → fast_path now backend c ≡ some (i, d)
      → IsWellFormed c
      → IsWellFormed d
  unfolding fast_path
  fast_path-IsWellFormed now i backend c d e w = elim (Option-cases (lookup backend c.conns)) [
    | inl missed ↦ let e' = rw (missed, fast_path) at e in cc
    | inr (j, found) ↦
        let same_cache : record c { heap = update j (touch now) c.heap } ≡ d = ground arith in
        subst IsWellFormed same_cache (update-IsWellFormed j (touch now) c (λ _. refl) w)
  ]

  pub slow_path-IsWellFormed :
      (new_client : Dialer g) (now : ℕ) (backend : Text) (c : Cache g)
      → IsWellFormed c
      → IsWellFormed (slow_path new_client now backend c).1
  unfolding slow_path
  slow_path-IsWellFormed new_client now backend c w = elim (Option-cases (lookup backend c.conns)) [
    | inr (j, found) ↦ rw (found, slow_path) (update-IsWellFormed j (touch now) c (λ _. refl) w)
    | inl missed ↦ elim (Option-cases (new_client backend (dial_options c.config))) [
      | inl dialled ↦ rw (missed, dialled, slow_path) (create-IsWellFormed now backend c missed w)
      | inr (e, failed) ↦ rw (missed, failed, slow_path) w
    ]
  ]

  pub get_entry-IsWellFormed :
      (new_client : Dialer g) (now later : ℕ) (backend : Text) (c : Cache g)
      → IsWellFormed c
      → IsWellFormed (get_entry new_client now later backend c).1
  unfolding get_entry
  get_entry-IsWellFormed new_client now later backend c w =
      elim (Option-cases (fast_path now backend c)) [
        | inl missed ↦ rw (missed, get_entry) (slow_path-IsWellFormed new_client later backend c w)
        | inr ((i, d), found) ↦
            rw (found, get_entry) (fast_path-IsWellFormed now i backend c d found w)
      ]

  pub pin-IsWellFormed : (i : ℕ) (c : Cache g) → IsWellFormed c → IsWellFormed (pin i c)
  unfolding pin
  pin-IsWellFormed i c w = update-IsWellFormed i _ c (λ _. refl) w

  pub acquire-IsWellFormed :
      (new_client : Dialer g) (now later : ℕ) (backend : Text) (c : Cache g)
      → IsWellFormed c
      → IsWellFormed (acquire new_client now later backend c).1
  unfolding acquire
  acquire-IsWellFormed new_client now later backend c w =
      pinned (get_entry new_client now later backend c)
        (get_entry-IsWellFormed new_client now later backend c w)
    where
      pinned : (r : Found g) → IsWellFormed r.1 → IsWellFormed (pin_found r).1
      pinned (ok i, d) v = pin-IsWellFormed i d v
      pinned (err e, d) v = v
      pinned (panic, d) v = v

  pub stamp-IsWellFormed : (now i : ℕ) (c : Cache g) → IsWellFormed c → IsWellFormed (stamp now i c)
  unfolding stamp
  stamp-IsWellFormed now i c w = update-IsWellFormed i _ c (λ _. refl) w

  pub unpin-IsWellFormed : (i : ℕ) (c : Cache g) → IsWellFormed c → IsWellFormed (unpin i c)
  unfolding unpin
  unpin-IsWellFormed i c w = update-IsWellFormed i _ c (λ _. refl) w

  pub remove-IsWellFormed :
      (backend : Text) (c : Cache g) → IsWellFormed c → IsWellFormed (remove backend c)
  unfolding remove
  remove-IsWellFormed backend c w = elim (Option-cases (lookup backend c.conns)) [
    | inl missed ↦ rw (missed, remove) w
    | inr (n, found) ↦
        rw (found, remove)
          (record {
            unique = erase-IsUnique backend c.conns w.unique;
            one_to_one = λ j k i e f. ground (
              arith,
              lookup-erase backend j c.conns w.unique,
              lookup-erase backend k c.conns w.unique,
              w.one_to_one j k i,
            );
            live = λ k i e. ground (
              arith,
              lookup-erase backend k c.conns w.unique,
              w.live k i,
              w.one_to_one k backend i,
              same_iff backend k,
              update-ne n i close_conn c.heap,
            );
            no_leak = λ i h e. elim (Bool-cases (n == i)) [
              | inl hit ↦ absurd (closed i ((==_iff n i).0 hit) e)
              | inr miss ↦
                  let ne = old_ne n i miss in
                  let (k, at_k) =
                    w.no_leak i h (ground (arith, update-ne n i close_conn c.heap ne)) in
                  (k, ground (arith, lookup-erase backend k c.conns w.unique, same_iff backend k))
            ];
          })
  ]
    where
      closed : {n : ℕ} (i : ℕ) → n ≡ i → (update n close_conn c.heap i).open_conn ≡ true → ⊥
      closed {n} i at e = let shut = update_self n close_conn c.heap in ground arith
