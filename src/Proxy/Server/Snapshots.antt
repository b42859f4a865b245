-- ===== src/Proxy/Server/Snapshots.antt =====
-- Use and snapshotMiddlewares of proxy/server.go on Go's slices: a slice is a window on an array that
-- other slices share, and append writes into the array while there is room behind the window.
use g_rpcat.Base.{
  ℕ, zero, suc, ◌+◌, ◌<◌, ◌≤◌, ◌≡◌, refl, sym, ◌∙◌, List, [], ◌∷◌, ◌++◌, Option, none, some, arith,
  ltb, ◌==◌, if◌then◌else◌, ◌&&◌, append-nil, append_assoc,
}

pub record Slice : Type 0 where
  pub array : ℕ
  pub len : ℕ
  pub cap : ℕ

-- The arrays, of which `next` were made, and s.middlewares.
pub record Registry (A : Type 0) : Type 0 where
  pub cells : ℕ → ℕ → Option A
  pub next : ℕ
  pub middlewares : Slice

module _ {A : Type 0} where
  -- The empty slice of NewServer.
  abbrev pub no_middlewares : Registry A
  no_middlewares = record {
    cells = λ a i. none;
    next = 1;
    middlewares = record { array = 0; len = 0; cap = 0 };
  }

  abbrev pub write : ℕ → ℕ → A → (ℕ → ℕ → Option A) → ℕ → ℕ → Option A
  write a i x cells b j = if a == b && i == j then some x else cells b j

  -- A new array that starts as a copy.
  abbrev pub copy : ℕ → Slice → (ℕ → ℕ → Option A) → ℕ → ℕ → Option A
  copy a s cells b j = if a == b then (if ltb j s.len then cells s.array j else none) else cells b j

  -- append of one element; `room` is what a new array has on top.
  unfoldable pub append_middleware : ℕ → A → Registry A → Registry A
  append_middleware room x r =
      let s = r.middlewares in
      if ltb s.len s.cap
      then record r {
        cells = write s.array s.len x r.cells;
        middlewares = record s { len = s.len + 1 };
      }
      else record {
        cells = write r.next s.len x (copy r.next s r.cells);
        next = r.next + 1;
        middlewares = record { array = r.next; len = s.len + 1; cap = s.len + 1 + room };
      }

  -- The calls of Use, none with nil.
  unfoldable pub use_each : List (ℕ × A) → Registry A → Registry A
  unfolding append_middleware
  use_each [] r = r
  use_each ((room, x) ∷ xs) r = use_each xs (append_middleware room x r)

  -- What the cells of a slice hold now.
  abbrev pub read : (ℕ → Option A) → ℕ → List (Option A)
  read f zero = []
  read f (suc n) = read f n ++ f n ∷ []

  abbrev pub contents : Registry A → Slice → List (Option A)
  contents r s = read (r.cells s.array) s.len

  -- snapshotMiddlewares
  abbrev pub snapshot : Registry A → Slice
  snapshot r = r.middlewares

  read-agree : (f g : ℕ → Option A) (n : ℕ) → ((i : ℕ) → i < n → f i ≡ g i) → read f n ≡ read g n
  read-agree f g zero h = refl
  read-agree f g (suc n) h =
      rw (read-agree f g n (λ i l. h i (omega arith)), h n (omega arith)) refl

  -- No append writes into the window of this slice.
  record IsBehind (r : Registry A) (s : Slice) : Type 0 where
    made : s.array < r.next
    current : r.middlewares.array < r.next
    behind : s.array ≡ r.middlewares.array → s.len ≤ r.middlewares.len

  append_middleware-cells :
      (room : ℕ) (x : A) (r : Registry A) (s : Slice) (i : ℕ)
      → IsBehind r s
      → i < s.len
      → (append_middleware room x r).cells s.array i ≡ r.cells s.array i
  unfolding append_middleware
  append_middleware-cells room x r s i b h = ground (arith, b.made, b.behind)

  append_middleware-IsBehind :
      (room : ℕ) (x : A) (r : Registry A) (s : Slice)
      → IsBehind r s
      → IsBehind (append_middleware room x r) s
        × (contents (append_middleware room x r) s ≡ contents r s)
  unfolding append_middleware
  append_middleware-IsBehind room x r s b = (
    record {
      made = ground (arith, b.made);
      current = ground (arith, b.current);
      behind = ground (arith, b.behind, b.made);
    },
    read-agree _ _ s.len (λ i h. append_middleware-cells room x r s i b h),
  )

  -- What the new slice holds below its last cell, and there.
  append_middleware_self :
      (room : ℕ) (x : A) (r : Registry A)
      → let r' = append_middleware room x r in
        (r'.middlewares.len ≡ suc r.middlewares.len)
        × ((i : ℕ)
            → i < r.middlewares.len
            → r'.cells r'.middlewares.array i ≡ r.cells r.middlewares.array i)
        × (r'.cells r'.middlewares.array r.middlewares.len ≡ some x)
  unfolding append_middleware
  append_middleware_self room x r = (ground arith, λ i h. ground arith, ground arith)

  append_middleware-contents :
      (room : ℕ) (x : A) (r : Registry A)
      → contents (append_middleware room x r) (snapshot (append_middleware room x r))
        ≡ contents r (snapshot r) ++ some x ∷ []
  append_middleware-contents room x r =
      let (longer, same, last) = append_middleware_self room x r in
      rw (longer, last, read-agree _ _ r.middlewares.len same) refl

  use_each-IsBehind :
      (xs : List (ℕ × A)) (r : Registry A) (s : Slice)
      → IsBehind r s
      → IsBehind (use_each xs r) s × (contents (use_each xs r) s ≡ contents r s)
  unfolding use_each
  use_each-IsBehind [] r s b = (b, refl)
  use_each-IsBehind ((room, x) ∷ xs) r s b =
      let (b', e) = append_middleware-IsBehind room x r s b in
      let (b'', e') = use_each-IsBehind xs (append_middleware room x r) s b' in (b'', e' ∙ e)

  abbrev pub cells_of : List (ℕ × A) → List (Option A)
  cells_of [] = []
  cells_of ((room, x) ∷ xs) = some x ∷ cells_of xs

  use_each-contents :
      (xs : List (ℕ × A)) (r : Registry A)
      → contents (use_each xs r) (snapshot (use_each xs r)) ≡ contents r (snapshot r) ++ cells_of xs
  unfolding use_each
  use_each-contents [] r = sym (append-nil _)
  use_each-contents ((room, x) ∷ xs) r =
      use_each-contents xs (append_middleware room x r)
      ∙ rw
          (
            append_middleware-contents room x r,
            append_assoc (contents r (snapshot r)) (some x ∷ []) (cells_of xs),
          )
          refl

  use_each-current :
      (xs : List (ℕ × A)) (r : Registry A)
      → r.middlewares.array < r.next
      → IsBehind (use_each xs r) (snapshot (use_each xs r))
  unfolding use_each append_middleware
  use_each-current [] r h = record { made = h; current = h; behind = λ e. omega arith }
  use_each-current ((room, x) ∷ xs) r h =
      use_each-current xs (append_middleware room x r) (ground arith)

  -- However the arrays of append grow: a snapshot taken after some calls of Use holds just the
  -- middlewares of these calls, in order, and still does after any more of them, when a new snapshot
  -- holds them all.
  pub snapshot_stays :
      (xs ys : List (ℕ × A))
      → let r = use_each xs no_middlewares in
        let later = use_each ys r in
        (contents r (snapshot r) ≡ cells_of xs)
        × (contents later (snapshot r) ≡ cells_of xs)
        × (contents later (snapshot later) ≡ cells_of xs ++ cells_of ys)
  snapshot_stays xs ys =
      let r = use_each xs no_middlewares in
      let now = use_each-contents xs no_middlewares in
      let (_, same) =
        use_each-IsBehind ys r (snapshot r) (use_each-current xs no_middlewares (omega arith)) in
      (now, same ∙ now, use_each-contents ys r ∙ rw now refl)
