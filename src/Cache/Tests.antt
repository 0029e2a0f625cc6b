-- ===== src/Cache/Tests.antt =====
-- The cache on concrete inputs, and its theorems at them.
use cheops_ng.Prelude.{
  ℕ, zero, suc, ◌≡◌, refl, true, List, [], ◌∷◌, some, arith, get_elem?, set, All,
}
use cheops_ng.Prelude.Int.{pos, ◌≤ℤ◌, ◌+ℤ◌, scale, quot}
use cheops_ng.Sched.Time.{Timeval}
use cheops_ng.Cache.Defs.{Cached, Cache, millis, add_to_cache, in_cache, find_ptr, victim, choose}
use cheops_ng.Cache.Bound.{IsBounded, add_to_cache-IsBounded}
use cheops_ng.Cache.Eviction.{evicts_newest}

abbrev at : ℕ → Timeval
at s = record { sec = pos s; usec = pos 0 }

-- Entries that were added one second after another, the last one first.
abbrev filled : ℕ → List Cached
filled zero = []
filled (suc n) = record { data_ptr = n; tv = at n } ∷ filled n

abbrev full : Cache
full = record { entries = filled 128; count = 128; destroyed = [] }

full-IsBounded : IsBounded full
full-IsBounded = record { counted = refl; bounded = omega arith }

-- The entry of the data 127, added last, is gone, and the one of 0 stays.
last_is_lost :
    (s' : Cache) × (add_to_cache true (at 500) 900 true full ≡ some s')
    × (get_elem? s'.entries 0 ≡ some (record { data_ptr = 900; tv = at 500 }))
    × (in_cache 0 s' ≡ true)
unfolding add_to_cache in_cache find_ptr victim choose millis ◌+ℤ◌ scale quot
last_is_lost = (_, refl, refl, refl)

add_to_cache-IsBounded_example :
    (s' : Cache) × (add_to_cache true (at 500) 900 true full ≡ some s')
    × IsBounded s'
    × (in_cache 900 s' ≡ true)
add_to_cache-IsBounded_example = add_to_cache-IsBounded (at 500) 900 true full full-IsBounded

evicts_newest_example :
    (i : ℕ) × (m : Cached) × (s' : Cache) × (get_elem? full.entries i ≡ some m)
    × All (λ p. millis p.tv ≤ℤ millis m.tv) full.entries
    × (add_to_cache true (at 500) 900 true full ≡ some s')
    × (s'.entries ≡ set full.entries i (record { data_ptr = 900; tv = at 500 }))
    × (s'.destroyed ≡ 900 ∷ [])
evicts_newest_example = evicts_newest true (at 500) 900 full full-IsBounded (omega arith)
