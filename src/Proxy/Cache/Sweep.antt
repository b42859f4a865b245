-- ===== src/Proxy/Cache/Sweep.antt =====
-- What sweepIdle evicts and what it keeps.
use g_rpcat.Base.{
  ℕ, ◌≡◌, refl, sym, ◌≢◌, ◌⊎◌, inl, inr, Bool, true, false, [], ◌∷◌, none, some, arith, ◌==◌,
  if◌then◌else◌, Bool-cases, ==_iff, ◌∙◌, ap,
}
use g_rpcat.Base.Int.{ℤ}
use g_rpcat.Base.Texts.{Text, same, same_iff}
use g_rpcat.Base.Dict.{Dict, lookup, IsUnique}
use g_rpcat.Proxy.Cache.Entries.{Entry, Heap, update, close_conn}
use g_rpcat.Proxy.Cache.{is_evictable, sweep_from, sweep_idle, Grpc, Cache}

-- No entry of the map has this pointer.
abbrev pub IsAbsent : ℕ → Dict ℕ → Type 0
IsAbsent i [] = Unit {0}
IsAbsent i ((k, j) ∷ m) = (i ≢ j) × IsAbsent i m

-- No key stands twice, and no two keys share an entry.
abbrev pub IsInjective : Dict ℕ → Type 0
IsInjective [] = Unit {0}
IsInjective ((k, i) ∷ m) = (lookup k m ≡ none) × IsAbsent i m × IsInjective m

pub update_self : (i : ℕ) (f : Entry → Entry) (h : Heap) → update i f h i ≡ f (h i)
unfolding update
update_self i f h = ground arith

pub update-ne : (i j : ℕ) (f : Entry → Entry) (h : Heap) → i ≢ j → update i f h j ≡ h j
unfolding update
update-ne i j f h ne = ground arith

-- The check of the sweep on the entry of a key, in the heap before the sweep.
abbrev pub evicts : ℕ → ℤ → (ℕ → Bool) → Heap → ℕ → Bool
evicts now timeout idle h i = is_evictable now timeout (idle i) (h i)

pub lookup-ne-absent :
    (k : Text) (i j : ℕ) (m : Dict ℕ) → IsAbsent i m → lookup k m ≡ some j → i ≢ j
unfolding lookup
lookup-ne-absent k i j [] a e = λ x. cc
lookup-ne-absent k i j ((b, n) ∷ m) a e = ground (arith, same_iff b k, lookup-ne-absent k i j m a.1)

module _ (now : ℕ) (timeout : ℤ) (idle : ℕ → Bool) where
  -- Entries that the swept map does not hold stay as they are.
  pub sweep_from_absent :
      (m : Dict ℕ) (h : Heap) (i : ℕ) → IsAbsent i m → (sweep_from now timeout idle m h).1 i ≡ h i
  unfolding sweep_from
  sweep_from_absent [] h i a = refl
  sweep_from_absent ((b, j) ∷ m) h i a = ground (
    arith,
    sweep_from_absent m h i a.1,
    sweep_from_absent m (update j close_conn h) i a.1,
    update-ne j i close_conn h,
  )

  abbrev pub SweptAt : Dict ℕ → Heap → Text → ℕ → Type 0
  SweptAt m h k i =
      (lookup k (sweep_from now timeout idle m h).0
        ≡ (if evicts now timeout idle h i then none else some i))
      × ((sweep_from now timeout idle m h).1 i
          ≡ (if evicts now timeout idle h i then close_conn (h i) else h i))

  pub sweep_from_missing :
      (m : Dict ℕ) (h : Heap) (k : Text)
      → lookup k m ≡ none
      → lookup k (sweep_from now timeout idle m h).0 ≡ none
  unfolding sweep_from lookup
  sweep_from_missing [] h k e = refl
  sweep_from_missing ((b, j) ∷ m) h k e =
      ground (arith, sweep_from_missing m h k, sweep_from_missing m (update j close_conn h) k)

  pub sweep_from-IsUnique :
      (m : Dict ℕ) (h : Heap) → IsUnique m → IsUnique (sweep_from now timeout idle m h).0
  unfolding sweep_from
  sweep_from-IsUnique [] h u = tt
  sweep_from-IsUnique ((b, j) ∷ m) h u = ground (
    arith,
    sweep_from-IsUnique m h u.1,
    sweep_from-IsUnique m (update j close_conn h) u.1,
    sweep_from_missing m h b u.0,
  )

  -- One round of the loop on an entry that goes, and on one that stays.
  sweep_from_gone :
      (b : Text) (j : ℕ) (m : Dict ℕ) (h : Heap)
      → evicts now timeout idle h j ≡ true
      → sweep_from now timeout idle ((b, j) ∷ m) h
        ≡ sweep_from now timeout idle m (update j close_conn h)
  unfolding sweep_from
  sweep_from_gone b j m h e = rw (e, sweep_from)

  sweep_from_kept :
      (b : Text) (j : ℕ) (m : Dict ℕ) (h : Heap)
      → evicts now timeout idle h j ≡ false
      → sweep_from now timeout idle ((b, j) ∷ m) h
        ≡ ((b, j) ∷ (sweep_from now timeout idle m h).0, (sweep_from now timeout idle m h).1)
  unfolding sweep_from
  sweep_from_kept b j m h e = rw (e, sweep_from)

  sweep_from_first :
      (b : Text) (j : ℕ) (m : Dict ℕ) (h : Heap)
      → IsInjective ((b, j) ∷ m)
      → SweptAt ((b, j) ∷ m) h b j
  unfolding lookup
  sweep_from_first b j m h (fresh, absent, inj) = elim (Bool-cases (evicts now timeout idle h j)) [
    | inl go ↦
        rw (sweep_from_gone b j m h go, go)
          (
            sweep_from_missing m (update j close_conn h) b fresh,
            sweep_from_absent m (update j close_conn h) j absent ∙ update_self j close_conn h,
          )
    | inr stay ↦
        rw (sweep_from_kept b j m h stay, stay, (same_iff b b).1 refl)
          (refl, sweep_from_absent m h j absent)
  ]

  -- A key's entry is closed and its key dropped exactly when the checks pass; otherwise both stay.
  pub sweep_from_present :
      (m : Dict ℕ) (h : Heap) (k : Text) (i : ℕ)
      → IsInjective m
      → lookup k m ≡ some i
      → SweptAt m h k i
  unfolding lookup
  sweep_from_present [] h k i inj e = cc
  sweep_from_present ((b, j) ∷ m) h k i inj e = elim (Bool-cases (same b k)) [
    | inl hit ↦
        let at_b : b ≡ k = (same_iff b k).0 hit in
        let at_j : j ≡ i = ground arith in rw (← at_b, ← at_j) (sweep_from_first b j m h inj)
    | inr miss ↦
        let later : lookup k m ≡ some i = ground arith in
        let ne : j ≢ i = lookup-ne-absent k j i m inj.1 later in
        elim (Bool-cases (evicts now timeout idle h j)) [
          | inl go ↦ rw (sweep_from_gone b j m h go) (
              ground (
                arith,
                sweep_from_present m (update j close_conn h) k i inj.2 later,
                update-ne j i close_conn h ne,
              ))
          | inr stay ↦
              rw (sweep_from_kept b j m h stay)
                (ground (arith, sweep_from_present m h k i inj.2 later))
        ]
  ]

-- Under unique keys a pointer is absent from the map or the entry of a key.
pub IsAbsent-cases :
    (i : ℕ) (m : Dict ℕ) → IsUnique m → IsAbsent i m ⊎ ((k : Text) × (lookup k m ≡ some i))
unfolding lookup
IsAbsent-cases i [] u = inl tt
IsAbsent-cases i ((b, j) ∷ m) u = elim (Bool-cases (i == j)) [
  | inl hit ↦ inr (b, rw ((same_iff b b).1 refl) (ap some (sym ((==_iff i j).0 hit))))
  | inr miss ↦ elim (IsAbsent-cases i m u.1) [
    | inl a ↦ inl (ground arith, a)
    | inr (k, e) ↦ inr (k, ground (arith, same_iff b k))
  ]
]

pub IsAbsent-lookup :
    (i : ℕ) (m : Dict ℕ) → IsUnique m → ((k : Text) → lookup k m ≢ some i) → IsAbsent i m
IsAbsent-lookup i m u none_has = elim (IsAbsent-cases i m u) [
  | inl a ↦ a
  | inr (k, e) ↦ absurd (none_has k e)
]

-- Different keys have different entries.
abbrev pub IsOneToOne : Dict ℕ → Type 0
IsOneToOne m = (j k : Text) (i : ℕ) → lookup j m ≡ some i → lookup k m ≡ some i → j ≡ k

pub IsOneToOne-IsInjective : (m : Dict ℕ) → IsUnique m → IsOneToOne m → IsInjective m
unfolding lookup
IsOneToOne-IsInjective [] u one = tt
IsOneToOne-IsInjective ((b, i) ∷ m) u one = (
  u.0,
  IsAbsent-lookup i m u.1 (λ k e. not_twice k e),
  IsOneToOne-IsInjective m u.1 (λ j k n e f. later j k n e f),
)
  where
    shifted : (k : Text) (n : ℕ) → lookup k m ≡ some n → lookup k ((b, i) ∷ m) ≡ some n
    shifted k n e = ground (arith, same_iff b k, u.0)

    first : lookup b ((b, i) ∷ m) ≡ some i
    first = ground (arith, same_iff b b)

    not_twice : (k : Text) → lookup k m ≢ some i
    not_twice k e = let at : b ≡ k = one b k i first (shifted k i e) in ground (arith, u.0)

    later : (j k : Text) (n : ℕ) → lookup j m ≡ some n → lookup k m ≡ some n → j ≡ k
    later j k n e f = one j k n (shifted j n e) (shifted k n f)

-- A sweep of an empty map does nothing.
pub sweep_idle-empty :
    {g : Grpc} (now : ℕ) (is_idle : ℕ → Bool) (c : Cache g)
    → c.conns ≡ []
    → sweep_idle now is_idle c ≡ c
unfolding sweep_idle sweep_from
sweep_idle-empty now is_idle c h = rw h refl
