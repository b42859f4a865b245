-- ===== src/Proxy/Cache/Tests.antt =====
-- Runs of the cache, and its laws at concrete caches.
use g_rpcat.Base.{ℕ, ◌≡◌, refl, true, false, [], ◌∷◌, none, some, ok, err, arith, ◌⊎◌, ◌≤◌}
use g_rpcat.Base.Int.{pos}
use g_rpcat.Base.Texts.{Text, codes, same}
use g_rpcat.Base.Dict.{lookup, insert, erase}
use g_rpcat.Proxy.Config.{Grpc}
use g_rpcat.Proxy.Cache.Entries.{update}
use g_rpcat.Proxy.Cache.Dialing.{dial_options}
use g_rpcat.Proxy.Cache.{
  Cache, Dialer, new_connection_cache, get_entry, acquire, release, sweep_idle, close, remove,
  fast_path, slow_path, create, pin, stamp, unpin, positive, is_recent,
}
use g_rpcat.Proxy.Cache.Invariant.{
  IsWellFormed, new_connection_cache-IsWellFormed, get_entry-IsWellFormed,
}
use g_rpcat.Proxy.Cache.Pinning.{
  System, Step, Reach, unlocked, locked, found_old, finds_or_dials, pins, stamps, unpins, locks,
  loads_in_flight, loads_last_used, evicts, drop_one, pin_phase, here, next,
}
use g_rpcat.Proxy.Cache.Pinning.Closing.{IsRemoval, closes_unpinned}
use g_rpcat.Base.Counts.{count}
use g_rpcat.Proxy.Cache.Pinning.Safety.{IsCounted, Reach-IsCounted, pinned}

abbrev plain : Grpc
plain = record { ServerOption = ℕ; DialOption = ℕ; Creds = ℕ; Keepalive = ℕ }

-- Every address can be dialled but the empty one.
abbrev dials : Dialer plain
dials backend opts = elim backend [ [] ↦ some 7 | _ ↦ none ]

abbrev fresh : Cache plain
fresh = new_connection_cache none none []

-- The cache that NewServer makes with an idle timeout of 10.
abbrev timed : Cache plain
timed = record fresh { config = record fresh.config { idle_timeout = pos 10 } }

abbrev a : Text
a = codes "a:1"

-- A connection to "a:1", dialled at 5 and with one stream on it, and then without.
abbrev busy : Cache plain
busy = (acquire dials 5 5 a timed).1

abbrev free : Cache plain
free = release 6 0 busy

caching : Unit {0}
unfolding new_connection_cache acquire release sweep_idle close remove update lookup insert erase
    same fast_path get_entry dial_options
caching = tt

cache_tests :
    ((acquire dials 5 5 a timed).0 ≡ ok 0)
    × ((acquire dials 5 5 [] timed).0 ≡ err 7)
    × ((acquire dials 9 9 a busy).0 ≡ ok 0)
    × ((sweep_idle 90 (λ _. true) busy).conns ≡ (a, 0) ∷ [])
    × ((sweep_idle 90 (λ _. true) free).conns ≡ [])
    × ((sweep_idle 15 (λ _. true) free).conns ≡ (a, 0) ∷ [])
    × ((sweep_idle 90 (λ _. false) free).conns ≡ (a, 0) ∷ [])
    × ((acquire dials 91 91 a (sweep_idle 90 (λ _. true) free)).0 ≡ ok 1)
    × ((remove a busy).conns ≡ [])
unfolding caching
cache_tests = (refl, refl, refl, refl, refl, refl, refl, refl, refl)

timed-IsWellFormed : IsWellFormed timed
unfolding new_connection_cache
timed-IsWellFormed =
    let w = new_connection_cache-IsWellFormed {g = plain} none none [] in
    record { unique = w.unique; one_to_one = w.one_to_one; live = w.live; no_leak = w.no_leak }

abbrev dialled : Cache plain
dialled = (get_entry dials 5 5 a timed).1

dialled-IsWellFormed : IsWellFormed dialled
dialled-IsWellFormed = get_entry-IsWellFormed dials 5 5 a timed timed-IsWellFormed

abbrev system : System plain
system = record { cache = timed; handed = []; holders = []; stamped = []; sweep = unlocked }

system-IsCounted : IsCounted system
unfolding new_connection_cache count
system-IsCounted = record {
  well_formed = timed-IsWellFormed;
  made = λ i h. absurd (omega arith);
  unmade = λ i h. omega arith;
  counted = λ i. ground arith;
}

-- "a:1" is dialled at 5, and a stream is opened on it.
abbrev opened : System plain
opened = record { cache = busy; handed = 0 ∷ []; holders = 0 ∷ []; stamped = []; sweep = unlocked }

opened-Reach : Reach dials system opened
unfolding caching slow_path create pin count pin_phase
opened-Reach =
    next (next here (finds_or_dials system 5 0 a dialled refl refl)) (pins _ 0 (omega arith))

Reach-IsCounted_example : IsCounted opened
Reach-IsCounted_example = Reach-IsCounted dials system-IsCounted opened-Reach

-- The stream ends at 6, and a sweep at 90 loads inFlight and lastUsed; another one is pinned before
-- the eviction, and loses its connection.
swept : System plain
unfolding caching slow_path create pin stamp unpin count drop_one pin_phase
swept = record {
  cache = pin 0 free;
  handed = 0 ∷ [];
  holders = 0 ∷ [];
  stamped = [];
  sweep = found_old 90 a 0 1;
}

swept-Reach : Reach dials system swept
unfolding swept positive is_recent
swept-Reach =
    next
      (next
        (next
          (next (next (next opened-Reach (stamps _ 6 0 (omega arith))) (unpins _ 0 (omega arith)))
            (locks _ 90 refl))
          (loads_in_flight _ 90 0 a refl refl refl))
        (loads_last_used _ 90 0 0 a refl refl))
      (pins _ 0 (omega arith))

evicting : Step dials swept (record swept { cache = remove a swept.cache; sweep = locked 90 })
unfolding swept
evicting = evicts swept 90 0 1 a refl

closes_unpinned_example :
    IsRemoval dials evicting
    ⊎ ((now : ℕ) × (k : Text) × (late : ℕ) × (swept.sweep ≡ found_old now k 0 late)
        × (lookup k swept.cache.conns ≡ some 0)
        × (pinned swept 0 ≤ late))
unfolding swept
closes_unpinned_example =
    closes_unpinned dials system swept _ 0 system-IsCounted refl swept-Reach evicting refl refl

-- The stream has ended, and nobody uses the cache.
abbrev rested : System plain
rested = record { cache = free; handed = 0 ∷ []; holders = []; stamped = []; sweep = unlocked }

-- That sweep closes the connection.
rested_swept : (sweep_idle 90 (λ _. true) free).conns ≡ []
unfolding swept
rested_swept = refl
