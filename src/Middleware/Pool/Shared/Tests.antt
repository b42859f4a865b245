-- ===== src/Middleware/Pool/Shared/Tests.antt =====
-- Two RPCs and the pool between them.
use g_rpcat.Base.{ℕ, ◌≡◌, refl, List, [], ◌∷◌, none, some}
use g_rpcat.Base.Counts.{count}
use g_rpcat.Base.Texts.{codes}
use g_rpcat.Middleware.Metadata.Pairs.{Pairs, pairs}
use g_rpcat.Middleware.Context.{set_backend}
use g_rpcat.Middleware.Pool.{Context}
use g_rpcat.Middleware.Pool.Shared.{
  Action, acquires, writes, releases, modify, take_free, get_pointer, act_each, no_contexts,
  context_of, alone_each,
}
use g_rpcat.Middleware.Pool.Shared.Alone.{pooled_contexts_private}

abbrev chooses : Context Pairs → Context Pairs
chooses c = record c { state = set_backend (codes "b:1") c.state }

-- The second RPC gets the context that the first has used.
abbrev two_rpcs : List (Action Pairs)
two_rpcs =
    acquires 1 0 none []
    ∷ writes 1 chooses
    ∷ releases 1
    ∷ acquires 2 0 none []
    ∷ acquires 3 0 none []
    ∷ writes 3 chooses
    ∷ []

reused : (act_each two_rpcs no_contexts).held 2 ≡ some 0
unfolding act_each take_free get_pointer modify
reused = refl

pooled_contexts_private_example :
    (context_of (act_each two_rpcs no_contexts) 2 ≡ alone_each 2 two_rpcs none)
    × ((q p : ℕ)
        → (act_each two_rpcs no_contexts).held 2 ≡ some p
        → (count p (act_each two_rpcs no_contexts).pool ≡ 0)
          × ((act_each two_rpcs no_contexts).held q ≡ some p → q ≡ 2))
pooled_contexts_private_example = pooled_contexts_private two_rpcs 2
