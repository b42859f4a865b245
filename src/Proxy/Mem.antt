-- ===== src/Proxy/Mem.antt =====
-- google.golang.org/grpc/mem, which is not part of the program: buffers with reference counts. Its
-- operations are taken as a parameter, with what its documentation says of them. `Counted` shows
-- that they can be met.
pub mod Counted
use g_rpcat.Base.{ℕ, ◌+◌, ◌-◌, ◌≤◌, ◌≡◌, List, [], ◌∷◌, ◌++◌, Option, none, some, if◌then◌else◌}
use g_rpcat.Base.Texts.{is_empty}

pub record Mem : Type 1 where
  pub Buffer : Type 0
  -- the counts of all buffers
  pub Store : Type 0
  pub references : Store → Buffer → ℕ
  -- how many references to a buffer a BufferSlice counts for; a SliceBuffer has none
  pub occurrences : Buffer → List Buffer → ℕ
  -- BufferSlice.Ref, BufferSlice.Free, BufferSlice.Materialize
  pub ref : List Buffer → Store → Store
  pub unref : List Buffer → Store → Store
  pub materialize : List Buffer → Option (List ℕ)
  -- the bytes of a buffer, and mem.SliceBuffer(b)
  pub bytes : Buffer → List ℕ
  pub slice_buffer : List ℕ → Buffer
  pub occurrences-nil : (b : Buffer) → occurrences b [] ≡ 0
  pub occurrences-append :
      (b : Buffer) (xs ys : List Buffer)
      → occurrences b (xs ++ ys) ≡ occurrences b xs + occurrences b ys
  pub occurrences-slice_buffer : (b : Buffer) (d : List ℕ) → occurrences b (slice_buffer d ∷ []) ≡ 0
  pub references-ref :
      (b : Buffer) (bs : List Buffer) (s : Store)
      → references (ref bs s) b ≡ references s b + occurrences b bs
  pub references-unref :
      (b : Buffer) (bs : List Buffer) (s : Store)
      → occurrences b bs ≤ references s b
      → references (unref bs s) b ≡ references s b - occurrences b bs
  pub materialize-nil : materialize [] ≡ none
  pub materialize-cons :
      (b : Buffer) (bs : List Buffer)
      → materialize (b ∷ bs) ≡ (
          if is_empty (bytes b)
          then materialize bs
          else some (bytes b ++ elim (materialize bs) [ none ↦ [] | some d ↦ d ]))
  pub bytes-slice_buffer : (d : List ℕ) → bytes (slice_buffer d) ≡ d
