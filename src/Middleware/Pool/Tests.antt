-- ===== src/Middleware/Pool/Tests.antt =====
-- The pool at a concrete history.
use g_rpcat.Base.{◌≡◌, refl, [], ◌∷◌, none}
use g_rpcat.Base.Texts.{codes}
use g_rpcat.Middleware.Metadata.Pairs.{Pairs, pairs}
use g_rpcat.Middleware.Context.{get, a_string, set}
use g_rpcat.Middleware.Chain.{return}
use g_rpcat.Middleware.Pool.{Context, new_context, acquire_context, releases, drops, use_pool}

-- A context that a request has used.
abbrev used : Context Pairs
used =
    let c : Context Pairs = new_context none (return ∷ []) in
    record c {
      state = set (codes "k") (a_string (codes "v")) (record c.state { backend = codes "b" });
    }

reused :
    let c =
      (acquire_context 0 none [] (use_pool (releases used ∷ releases used ∷ drops 1 ∷ []) [])).0 in
    (c.state.backend ≡ []) × (get (codes "k") c.state ≡ none)
unfolding acquire_context use_pool get
reused = (refl, refl)
