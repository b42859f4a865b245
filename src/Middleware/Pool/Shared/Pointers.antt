-- ===== src/Middleware/Pool/Shared/Pointers.antt =====
-- The pool hands no context to two RPCs at a time.
use g_rpcat.Base.{
  subst, ℕ, zero, suc, ◌≤◌, ◌<◌, ◌≡◌, ◌≢◌, ◌⊎◌, inl, inr, refl, sym, ap, List, [], ◌∷◌, Option,
  some, none, arith, if◌then◌else◌, ◌==◌,
}
use g_rpcat.Base.Counts.{count}
use g_rpcat.Middleware.Pool.{zero_context}
use g_rpcat.Middleware.Pool.Isolation.{IsClean}
use g_rpcat.Middleware.Pool.Shared.{Contexts, modify, take_free, get_pointer, pointer_or_new}

-- What take_free may give.
abbrev pub Takes : List ℕ → Option ℕ × List ℕ → Type 0
Takes pool (o, rest) =
    ((o ≡ none) × (rest ≡ pool))
    ⊎ ((p : ℕ) × (o ≡ some p)
        × ((j : ℕ) → count j pool ≡ (if j == p then suc (count j rest) else count j rest)))

pub take_free-Takes : (i : ℕ) (pool : List ℕ) → Takes pool (take_free i pool)
unfolding take_free count
take_free-Takes i [] = inl (refl, refl)
take_free-Takes zero (p ∷ pool) = inr (p, refl, λ j. refl)
take_free-Takes (suc i) (p ∷ pool) = elim (take_free-Takes i pool) [
  | inl (no_pointer, no_rest) ↦ inl (no_pointer, ap (λ rest. p ∷ rest) no_rest)
  | inr (q, found, counts) ↦ inr (q, found, λ j. ground (arith, counts j))
]

pub modify-same {ℓ} : {A : Type ℓ} (i : ℕ) (f : A → A) (h : ℕ → A) → modify i f h i ≡ f (h i)
unfolding modify
modify-same i f h = ground arith

pub modify-other {ℓ} : {A : Type ℓ} (i j : ℕ) (f : A → A) (h : ℕ → A) → i ≢ j → modify i f h j ≡ h j
unfolding modify
modify-other i j f h d = ground arith

pub eq-cases : (a b : ℕ) → (a ≡ b) ⊎ (a ≢ b)
eq-cases a b = ground arith

zero-or-suc : (n : ℕ) → (n ≡ 0) ⊎ (0 < n)
zero-or-suc zero = inl refl
zero-or-suc (suc n) = inr (omega arith)

module _ {MD : Type 0} where
  pub record IsPrivate (s : Contexts MD) : Type 0 where
    pub apart : (q r p : ℕ) → s.held q ≡ some p → s.held r ≡ some p → q ≡ r
    pub busy : (r p : ℕ) → s.held r ≡ some p → (p < s.next) × (count p s.pool ≡ 0)
    pub pooled :
        (p : ℕ) → 0 < count p s.pool → (count p s.pool ≡ 1) × (p < s.next) × IsClean (s.heap p)

  -- What contextPool.Get gives: a clean context that nobody holds.
  pub record Gets (s : Contexts MD) (p : ℕ) (t : Contexts MD) : Type 0 where
    pub private_still : IsPrivate t
    pub same_held : t.held ≡ s.held
    pub unpooled : count p t.pool ≡ 0
    pub allocated : p < t.next
    pub free : (r q : ℕ) → t.held r ≡ some q → p ≢ q
    pub clean : IsClean (t.heap p)
    pub untouched : (q : ℕ) → p ≢ q → t.heap q ≡ s.heap q

  pub fewer-IsPrivate :
      (s : Contexts MD) (rest : List ℕ)
      → ((j : ℕ) → count j rest ≤ count j s.pool)
      → IsPrivate s
      → IsPrivate (record s { pool = rest })
  fewer-IsPrivate s rest few v = record {
    apart = v.apart;
    busy = λ r p h. ((v.busy r p h).0, omega (arith, (v.busy r p h).1, few p));
    pooled = λ p h.
        let (one, made, clean) = v.pooled p (omega (arith, few p)) in
        (omega (arith, few p), made, clean);
  }

  taking-Gets :
      (s : Contexts MD) (p : ℕ) (rest : List ℕ)
      → ((j : ℕ) → count j s.pool ≡ (if j == p then suc (count j rest) else count j rest))
      → IsPrivate s
      → Gets s p (record s { pool = rest })
  taking-Gets s p rest counts v =
      let here : count p s.pool ≡ suc (count p rest) = ground (arith, counts p) in
      let (one, made, clean) = v.pooled p (omega arith) in
      record {
        private_still = fewer-IsPrivate s rest (λ j. ground (arith, counts j)) v;
        same_held = refl;
        unpooled = omega arith;
        allocated = made;
        free = λ r q h e. omega (arith, (v.busy r p (subst (λ x. s.held r ≡ some x) (sym e) h)).1);
        clean = clean;
        untouched = λ q d. refl;
      }

  making-Gets :
      (s : Contexts MD)
      → IsPrivate s
      → Gets s s.next
          (record s { heap = modify s.next (λ c. zero_context) s.heap; next = suc s.next })
  making-Gets s v = record {
    private_still = record {
      apart = v.apart;
      busy = λ r p h. let (made, unpooled) = v.busy r p h in (omega arith, unpooled);
      pooled = λ p h.
          let (one, made, clean) = v.pooled p h in
          (
            one,
            omega arith,
            subst IsClean
                (sym (modify-other s.next p (λ c. zero_context) s.heap (λ e. omega arith))) clean,
          );
    };
    same_held = refl;
    unpooled = unpooled_yet (zero-or-suc (count s.next s.pool));
    allocated = omega arith;
    free = λ r q h e. omega (arith, (v.busy r q h).0);
    clean =
        subst IsClean (sym (modify-same s.next (λ c. zero_context) s.heap))
          (record { no_response = refl; no_backend = refl; no_values = refl });
    untouched = λ q d. modify-other s.next q _ s.heap d;
  }
    where
      unpooled_yet : (count s.next s.pool ≡ 0) ⊎ (0 < count s.next s.pool) → count s.next s.pool ≡ 0
      unpooled_yet (inr some_left) = absurd (omega (arith, (v.pooled s.next some_left).1))
      unpooled_yet (inl none_left) = none_left

  pointer_or_new-Gets :
      (s : Contexts MD) (f : Option ℕ × List ℕ)
      → IsPrivate s
      → Takes s.pool f
      → Gets s (pointer_or_new f s).0 (pointer_or_new f s).1
  unfolding pointer_or_new
  pointer_or_new-Gets s (none, rest) v (inl (e, same)) =
      subst
        (λ l. Gets s s.next (record s {
          heap = modify s.next (λ c. zero_context) s.heap;
          next = suc s.next;
          pool = l;
        }))
        (sym same) (making-Gets s v)
  pointer_or_new-Gets s (none, rest) v (inr (p, e, counts)) = absurd cc
  pointer_or_new-Gets s (some p, rest) v (inl (e, same)) = absurd cc
  pointer_or_new-Gets s (some p, rest) v (inr (q, e, counts)) =
      let same : p ≡ q = cc in taking-Gets s p rest (λ j. ground (arith, counts j, same)) v

  pub get_pointer-Gets :
      (i : ℕ) (s : Contexts MD) → IsPrivate s → Gets s (get_pointer i s).0 (get_pointer i s).1
  unfolding get_pointer
  get_pointer-Gets i s v = pointer_or_new-Gets s (take_free i s.pool) v (take_free-Takes i s.pool)
