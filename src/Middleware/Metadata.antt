-- ===== src/Middleware/Metadata.antt =====
-- google.golang.org/grpc/metadata.MD, which is not part of the program: its operations are taken
-- as an instance, with what its documentation says of them. `Pairs` shows that they can be met.
pub mod Pairs
use g_rpcat.Base.{ℕ, zero, suc, ◌<◌, ◌≡◌, ◌≢◌, List, [], ◌∷◌, ◌++◌}
use g_rpcat.Base.Texts.{Text}

pub record Metadata (MD : Type 0) : Type 0 where
  -- metadata.MD{}
  pub empty : MD
  -- len(md)
  pub size : MD → ℕ
  -- the key under which a key is kept, its lower case
  pub lower : Text → Text
  -- md.Get(key), md.Append(key, value), md.Delete(key)
  pub get : MD → Text → List Text
  pub append : MD → Text → Text → MD
  pub delete : MD → Text → MD
  pub get_of_size : (md : MD) (k : Text) → size md ≡ 0 → get md k ≡ []
  pub get-empty : (k : Text) → get empty k ≡ []
  pub get-append_self :
      (md : MD) (k j v : Text) → lower k ≡ lower j → get (append md k v) j ≡ get md k ++ v ∷ []
  pub get-append_ne :
      (md : MD) (k j v : Text) → lower k ≢ lower j → get (append md k v) j ≡ get md j
  pub get-delete_self : (md : MD) (k j : Text) → lower k ≡ lower j → get (delete md k) j ≡ []
  pub get-delete_ne : (md : MD) (k j : Text) → lower k ≢ lower j → get (delete md k) j ≡ get md j
