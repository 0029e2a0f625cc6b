-- ===== src/Cache/Bound.antt =====
-- The size of the cache, and that what was added is found.
use cheops_ng.Prelude.{
  ℕ, zero, suc, ◌+◌, ◌≤◌, ◌<◌, ◌≡◌, refl, Bool, true, false, Bool-cases, inl, inr, List, [], ◌∷◌,
  none, some, ltb, arith, length, set, subst, some_eq, Option-cases,
}
use cheops_ng.Prelude.Int.{ltb_ℤ}
use cheops_ng.Sched.Time.{Timeval}
use cheops_ng.Cache.Defs.{
  Cached, Cache, max_ping_cache_entries, millis, choose, victim, evict, push, add_to_cache,
  find_ptr, in_cache,
}

pub record IsBounded (s : Cache) : Type 0 where
  pub counted : s.count ≡ length s.entries
  pub bounded : s.count ≤ max_ping_cache_entries

pub length-set {ℓ} : {A : Type ℓ} (xs : List A) (i : ℕ) (v : A) → length (set xs i v) ≡ length xs
length-set [] i v = refl
length-set (x ∷ xs) zero v = refl
length-set (x ∷ xs) (suc i) v = omega (arith, length-set xs i v)

find_ptr-set :
    (d : ℕ) (t : Timeval) (xs : List Cached) (i : ℕ)
    → i < length xs
    → find_ptr d (set xs i (record { data_ptr = d; tv = t })) ≡ true
unfolding find_ptr
find_ptr-set d t [] i h = absurd (omega arith)
find_ptr-set d t (x ∷ xs) zero h = ground arith
find_ptr-set d t (x ∷ xs) (suc i) h = ground (arith, find_ptr-set d t xs i)

-- The choice is the one so far or an index of the rest.
choose_below :
    (i old : ℕ) (t : Timeval) (xs : List Cached)
    → old ≤ i
    → 0 < length xs
    → choose i old t xs < i + length xs
unfolding choose
choose_below i old t [] h k = absurd (omega arith)
choose_below i old t (x ∷ []) h k = ground arith
choose_below i old t (x ∷ y ∷ xs) h k = elim (Bool-cases (ltb_ℤ (millis t) (millis x.tv))) [
  | inl e ↦ rw e (omega (arith, choose_below (i + 1) i x.tv (y ∷ xs) (omega arith) (omega arith)))
  | inr e ↦ rw e (omega (arith, choose_below (i + 1) old t (y ∷ xs) (omega arith) (omega arith)))
]

pub victim_below : (xs : List Cached) (i : ℕ) → victim xs ≡ some i → i < length xs
unfolding victim
victim_below [] i e = absurd (cc)
victim_below (x ∷ xs) i e =
    subst (λ j. j < length (x ∷ xs)) (some_eq e)
      (omega (arith, choose_below 0 0 x.tv (x ∷ xs) (omega arith) (omega arith)))

victim-none : (xs : List Cached) → victim xs ≡ none → length xs ≡ 0
unfolding victim
victim-none [] e = refl
victim-none (x ∷ xs) e = absurd (cc)

ltb-false : (n : ℕ) → ltb n max_ping_cache_entries ≡ false → 128 ≤ n
ltb-false n h = ground arith

-- `add_to_cache` keeps the count of the list and at most 128 entries; it ends the program only when
-- memory is out, and then what was added is found by `in_cache`.
pub add_to_cache-IsBounded :
    (now : Timeval) (d : ℕ) (has_callback : Bool) (s : Cache)
    → IsBounded s
    → (s' : Cache) × (add_to_cache true now d has_callback s ≡ some s')
      × IsBounded s'
      × (in_cache d s' ≡ true)
unfolding add_to_cache in_cache find_ptr
add_to_cache-IsBounded now d has_callback s b =
    elim (Bool-cases (ltb s.count max_ping_cache_entries)) [
      | inl room ↦ (
        push now d s,
        rw room,
        record { counted = omega (arith, b.counted); bounded = ground arith },
        ground arith,
      )
      | inr full ↦ elim (Option-cases (victim s.entries)) [
        | inl no_entry ↦
            absurd
              (omega (arith, b.counted, victim-none s.entries no_entry, ltb-false s.count full))
        | inr (i, found) ↦ (
          evict now d has_callback s i,
          rw (full, found),
          record {
            counted =
                omega
                  (arith, b.counted, length-set s.entries i (record { data_ptr = d; tv = now }));
            bounded = b.bounded;
          },
          find_ptr-set d now s.entries i (victim_below s.entries i found),
        )
      ]
    ]
