-- ===== src/Proxy/Cache/Backends/Tests.antt =====
-- A run of the cache against the map of backends.
use g_rpcat.Base.{ℕ, ◌≡◌, refl, true, List, [], ◌∷◌, none, some, ok, err}
use g_rpcat.Base.Texts.{Text, codes, same}
use g_rpcat.Base.Dict.{lookup}
use g_rpcat.Proxy.Config.{Grpc}
use g_rpcat.Proxy.Cache.Dialing.{dial_options}
use g_rpcat.Proxy.Cache.{Cache, Dialer, new_connection_cache, is_evictable}
use g_rpcat.Proxy.Cache.Invariant.{new_connection_cache-IsWellFormed}
use g_rpcat.Proxy.Cache.Backends.{
  Use, gets, acquires, releases, sweeps, removes, closes, use_backends, use_cache, use_all, view,
}
use g_rpcat.Proxy.Cache.Backends.Refinement.{use_all-view}

abbrev plain : Grpc
plain = record { ServerOption = ℕ; DialOption = ℕ; Creds = ℕ; Keepalive = ℕ }

-- Every address can be dialled but the empty one.
abbrev dials : Dialer plain
dials backend opts = elim backend [ [] ↦ some 7 | _ ↦ none ]

abbrev a : Text
a = codes "a:1"

-- A connection is dialled, used, let go of by a sweep, and dialled again.
abbrev day : List Use
day =
    acquires 5 5 a
    ∷ gets 6 6 []
    ∷ sweeps 7 (λ _. true)
    ∷ releases 8 0
    ∷ sweeps 9 (λ _. true)
    ∷ acquires 10 11 a
    ∷ releases 12 1
    ∷ removes a
    ∷ closes
    ∷ []

abbrev empty : Cache plain
empty = new_connection_cache none none []

answers :
    (use_all (use_backends dials) day (view empty)).0
    ≡ some (ok 0) ∷ some (err 7) ∷ none ∷ none ∷ none ∷ some (ok 1) ∷ none ∷ none ∷ none ∷ []
unfolding use_all use_backends new_connection_cache lookup same dial_options is_evictable
answers = refl

use_all-view_example :
    let (rs, d) = use_all (use_cache dials) day empty in
    (rs, view d) ≡ use_all (use_backends dials) day (view empty)
use_all-view_example = use_all-view dials day empty (new_connection_cache-IsWellFormed none none [])
