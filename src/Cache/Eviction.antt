-- ===== src/Cache/Eviction.antt =====
-- Which entry a full cache gives up: the newest one, and the destructor gets the new data.
use cheops_ng.Prelude.{
  ℕ, suc, ◌+◌, ◌≤◌, ◌<◌, ◌≡◌, refl, Bool, true, false, Bool-cases, inl, inr, List, [], ◌∷◌, some,
  ltb, arith, length, set, All, All-map, get_elem?, ap, ◌∙◌, ◌⊎◌,
}
use cheops_ng.Prelude.Int.{ltb_ℤ, ◌≤ℤ◌, ◌<ℤ◌}
use cheops_ng.Sched.Time.{Timeval}
use cheops_ng.Cache.Defs.{
  Cached, Cache, max_ping_cache_entries, millis, choose, victim, evict, add_to_cache,
}
use cheops_ng.Cache.Bound.{IsBounded}

-- The entry at the index is as new as any of the list, and as the time `t`.
abbrev IsNewest : Timeval → List Cached → Cached → Type 0
IsNewest t xs m = (millis t ≤ℤ millis m.tv) × All (λ p. millis p.tv ≤ℤ millis m.tv) xs

ltb-lt : (t u : Timeval) → ltb_ℤ (millis t) (millis u) ≡ true → millis t <ℤ millis u
ltb-lt t u h = ground arith

ltb-ge : (t u : Timeval) → ltb_ℤ (millis t) (millis u) ≡ false → millis u ≤ℤ millis t
ltb-ge t u h = ground arith

-- What the loop has chosen: an entry of the rest that is as new as any, or the choice it had.
abbrev IsChoice : ℕ → ℕ → Timeval → List Cached → ℕ → Type 0
IsChoice i old t xs c =
    ((j : ℕ) × (m : Cached) × (c ≡ i + j) × (get_elem? xs j ≡ some m) × IsNewest t xs m)
    ⊎ ((c ≡ old) × All (λ p. millis p.tv ≤ℤ millis t) xs)

le_trans_All :
    (t u : Timeval) (xs : List Cached)
    → millis t ≤ℤ millis u
    → All (λ p. millis p.tv ≤ℤ millis t) xs
    → All (λ p. millis p.tv ≤ℤ millis u) xs
le_trans_All t u xs h = All-map _ _ xs (λ p k. omega (arith, h, k))

choose-IsChoice :
    (i old : ℕ) (t : Timeval) (xs : List Cached) → IsChoice i old t xs (choose i old t xs)
unfolding choose
choose-IsChoice i old t [] = inr (refl, tt)
choose-IsChoice i old t (x ∷ xs) = elim (Bool-cases (ltb_ℤ (millis t) (millis x.tv))) [
  | inl newer ↦ rw newer (elim (choose-IsChoice (i + 1) i x.tv xs) [
    | inl (j, m, at, here, n) ↦
        inl
          (suc j, m, omega (arith, at), here, (omega (arith, ltb-lt t x.tv newer, n.0), (n.0, n.1)))
    | inr (same, older) ↦ inl (
      0,
      x,
      omega (arith, same),
      refl,
      (omega (arith, ltb-lt t x.tv newer), (omega arith, older)),
    )
  ])
  | inr not_newer ↦ rw not_newer (elim (choose-IsChoice (i + 1) old t xs) [
    | inl (j, m, at, here, n) ↦ inl (
      suc j,
      m,
      omega (arith, at),
      here,
      (n.0, (omega (arith, ltb-ge t x.tv not_newer, n.0), n.1)),
    )
    | inr (same, older) ↦ inr (same, (omega (arith, ltb-ge t x.tv not_newer), older))
  ])
]

victim-newest :
    (xs : List Cached)
    → 0 < length xs
    → (i : ℕ) × (m : Cached) × (victim xs ≡ some i)
      × (get_elem? xs i ≡ some m)
      × All (λ p. millis p.tv ≤ℤ millis m.tv) xs
unfolding victim
victim-newest [] h = absurd (omega arith)
victim-newest (x ∷ xs) h = elim (choose-IsChoice 0 0 x.tv (x ∷ xs)) [
  | inl (j, m, at, here, n) ↦ (j, m, ap some (at ∙ omega arith), here, n.1)
  | inr (same, older) ↦ (0, x, ap some same, refl, older)
]

-- A full cache gives up the entry that was added last, not the oldest one, and the destructor is
-- called with the new data, which stays in the cache, and not with the data that leaves it.
pub evicts_newest :
    (memory : Bool) (now : Timeval) (d : ℕ) (s : Cache)
    → IsBounded s
    → max_ping_cache_entries ≤ s.count
    → (i : ℕ) × (m : Cached) × (s' : Cache) × (get_elem? s.entries i ≡ some m)
      × All (λ p. millis p.tv ≤ℤ millis m.tv) s.entries
      × (add_to_cache memory now d true s ≡ some s')
      × (s'.entries ≡ set s.entries i (record { data_ptr = d; tv = now }))
      × (s'.destroyed ≡ d ∷ s.destroyed)
unfolding add_to_cache
evicts_newest memory now d s b full =
    let (i, m, found, here, newest) = victim-newest s.entries (omega (arith, b.counted)) in
    let no_room : ltb s.count max_ping_cache_entries ≡ false = ground arith in
    (i, m, evict now d true s i, here, newest, rw (no_room, found), refl, refl)
