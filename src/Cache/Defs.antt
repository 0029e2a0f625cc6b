-- ===== src/Cache/Defs.antt =====
-- The state of cache.c and its operations. The data of an entry is a pointer; gettimeofday() is
-- taken to succeed.
use cheops_ng.Prelude.{
  ℕ, ◌+◌, Bool, true, false, List, [], ◌∷◌, Option, none, some, ltb, ◌==◌, if◌then◌else◌, set,
}
use cheops_ng.Prelude.Int.{ℤ, ◌+ℤ◌, scale, quot, ltb_ℤ}
use cheops_ng.Sched.Time.{Timeval}

-- `struct cache`; the link `next` is the order of the list.
pub record Cached : Type 0 where
  pub data_ptr : ℕ
  pub tv : Timeval

-- `Cache` and the static `count`, with the arguments that destructors were called with, the last
-- one first.
pub record Cache : Type 0 where
  pub entries : List Cached
  pub count : ℕ
  pub destroyed : List ℕ

abbrev pub empty : Cache
empty = record { entries = []; count = 0; destroyed = [] }

abbrev pub max_ping_cache_entries : ℕ
max_ping_cache_entries = 128

-- The time of an entry in milliseconds, as the loop compares it.
unfoldable pub millis : Timeval → ℤ
millis t = scale t.sec 1000 +ℤ quot t.usec 1000

-- The loop that looks for `old`: from the index `i` on, with the choice so far and its time.
unfoldable pub choose : ℕ → ℕ → Timeval → List Cached → ℕ
unfolding millis
choose i old t [] = old
choose i old t (p ∷ rest) =
    let (old', t') = if ltb_ℤ (millis t) (millis p.tv) then (i, p.tv) else (old, t) in
    choose (i + 1) old' t' rest

-- The entry that a full cache gives up; none in an empty list, where the code reads through NULL.
unfoldable pub victim : List Cached → Option ℕ
unfolding choose
victim [] = none
victim (p ∷ rest) = some (choose 0 0 p.tv (p ∷ rest))

abbrev pub evict : Timeval → ℕ → Bool → Cache → ℕ → Cache
evict now data_ptr has_callback s i = record s {
  entries = set s.entries i (record { data_ptr = data_ptr; tv = now });
  destroyed = if has_callback then data_ptr ∷ s.destroyed else s.destroyed;
}

abbrev pub push : Timeval → ℕ → Cache → Cache
push now data_ptr s = record s {
  entries = record { data_ptr = data_ptr; tv = now } ∷ s.entries;
  count = s.count + 1;
}

-- `add_to_cache` at a time, with what malloc() answers and whether a destructor is given. `none` is
-- the exit of the program when memory is out, or the fault of an empty list.
unfoldable pub add_to_cache : Bool → Timeval → ℕ → Bool → Cache → Option Cache
unfolding victim
add_to_cache memory now data_ptr has_callback s =
    if ltb s.count max_ping_cache_entries
    then (if memory then some (push now data_ptr s) else none)
    else (elim (victim s.entries) [
      | none ↦ none
      | some i ↦ some (evict now data_ptr has_callback s i)
    ])

unfoldable pub find_ptr : ℕ → List Cached → Bool
find_ptr d [] = false
find_ptr d (p ∷ rest) = let found = find_ptr d rest in if p.data_ptr == d then true else found

unfoldable pub in_cache : ℕ → Cache → Bool
unfolding find_ptr
in_cache d s = find_ptr d s.entries
