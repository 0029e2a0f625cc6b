-- ===== src/Discover/Queue.antt =====
-- The queue of discoveries: distinct pointers, and addresses in range.
use cheops_ng.Prelude.{
  IsDistinct, ℕ, ◌<◌, ◌≡◌, ◌≢◌, refl, Bool-cases, inl, inr, List, [], ◌∷◌, none, some, some_eq,
  ◌==◌, ==_iff, All, arith, ap, subst, sym,
}
use cheops_ng.Discover.Defs.{Ping, Discovery, find_ping, remove_ping, write_back}
use cheops_ng.Discover.Range.{IsPing}

abbrev pub addresses : List Ping → List ℕ
addresses [] = []
addresses (p ∷ q) = p.address ∷ addresses q

-- Every discovery has a pointer of its own, which malloc() gave, and is at an address of its range.
pub record IsValid (s : Discovery) : Type 0 where
  pub pings : All IsPing s.ping_q
  pub distinct : IsDistinct (addresses s.ping_q)
  pub fresh : All (λ a. a < s.next) (addresses s.ping_q)

pub find_ping-found :
    (a : ℕ) (q : List Ping) (p : Ping)
    → find_ping a q ≡ some p
    → All IsPing q
    → (p.address ≡ a) × IsPing p
unfolding find_ping
find_ping-found a [] p e h = absurd (cc)
find_ping-found a (x ∷ q) p e h = elim (Bool-cases (x.address == a)) [
  | inl same ↦
      let it : some x ≡ some p = rw same at e in
      subst (λ y. (y.address ≡ a) × IsPing y) (some_eq it) ((==_iff x.address a).0 same, h.0)
  | inr other ↦ find_ping-found a q p (rw other at e) h.1
]

pub addresses-write_back : (p : Ping) (q : List Ping) → addresses (write_back p q) ≡ addresses q
unfolding write_back
addresses-write_back p [] = refl
addresses-write_back p (x ∷ q) = elim (Bool-cases (x.address == p.address)) [
  | inl same ↦ rw same (ap (λ a. a ∷ addresses q) (sym ((==_iff x.address p.address).0 same)))
  | inr other ↦ rw other (ap (λ l. x.address ∷ l) (addresses-write_back p q))
]

pub All-write_back :
    (P : Ping → Type 0) (p : Ping) (q : List Ping) → P p → All P q → All P (write_back p q)
unfolding write_back
All-write_back P p [] h k = tt
All-write_back P p (x ∷ q) h k = elim (Bool-cases (x.address == p.address)) [
  | inl same ↦ rw same (h, k.1)
  | inr other ↦ rw other (k.0, All-write_back P p q h k.1)
]

pub All-remove_ping :
    (P : Ping → Type 0) (a : ℕ) (q : List Ping) → All P q → All P (remove_ping a q)
unfolding remove_ping
All-remove_ping P a [] h = tt
All-remove_ping P a (x ∷ q) h = elim (Bool-cases (x.address == a)) [
  | inl same ↦ rw same h.1
  | inr other ↦ rw other (h.0, All-remove_ping P a q h.1)
]

All-addresses-remove_ping :
    (P : ℕ → Type 0) (a : ℕ) (q : List Ping)
    → All P (addresses q)
    → All P (addresses (remove_ping a q))
unfolding remove_ping
All-addresses-remove_ping P a [] h = tt
All-addresses-remove_ping P a (x ∷ q) h = elim (Bool-cases (x.address == a)) [
  | inl same ↦ rw same h.1
  | inr other ↦ rw other (h.0, All-addresses-remove_ping P a q h.1)
]

remove_ping-IsDistinct :
    (a : ℕ) (q : List Ping) → IsDistinct (addresses q) → IsDistinct (addresses (remove_ping a q))
unfolding remove_ping
remove_ping-IsDistinct a [] h = tt
remove_ping-IsDistinct a (x ∷ q) h = elim (Bool-cases (x.address == a)) [
  | inl same ↦ rw same h.1
  | inr other ↦ rw other (All-addresses-remove_ping _ a q h.0, remove_ping-IsDistinct a q h.1)
]

-- What is removed is gone: its pointer leads to nothing any more.
pub find_ping-remove_ping :
    (a : ℕ) (q : List Ping) → IsDistinct (addresses q) → find_ping a (remove_ping a q) ≡ none
unfolding find_ping remove_ping
find_ping-remove_ping a [] h = refl
find_ping-remove_ping a (x ∷ q) h = elim (Bool-cases (x.address == a)) [
  | inl same ↦ rw same (
      find_ping-absent a q
        (subst (λ b. All (λ c. c ≢ b) (addresses q)) ((==_iff x.address a).0 same) h.0))
  | inr other ↦ ground (arith, other, find_ping-remove_ping a q h.1)
]
  where
    find_ping-absent :
        (a : ℕ) (q : List Ping) → All (λ c. c ≢ a) (addresses q) → find_ping a q ≡ none
    find_ping-absent a [] h = refl
    find_ping-absent a (x ∷ q) h = ground (arith, find_ping-absent a q h.1)

pub written-IsValid :
    (p : Ping) (s s' : Discovery)
    → IsValid s
    → IsPing p
    → s'.ping_q ≡ write_back p s.ping_q
    → s'.next ≡ s.next
    → IsValid s'
written-IsValid p s s' v h e n = record {
  pings = rw e (All-write_back IsPing p s.ping_q h v.pings);
  distinct = rw (e, addresses-write_back p s.ping_q) v.distinct;
  fresh = rw (e, n, addresses-write_back p s.ping_q) v.fresh;
}

pub removed-IsValid :
    (a : ℕ) (s s' : Discovery)
    → IsValid s
    → s'.ping_q ≡ remove_ping a s.ping_q
    → s'.next ≡ s.next
    → IsValid s'
removed-IsValid a s s' v e n = record {
  pings = rw e (All-remove_ping IsPing a s.ping_q v.pings);
  distinct = rw e (remove_ping-IsDistinct a s.ping_q v.distinct);
  fresh = rw (e, n) (All-addresses-remove_ping _ a s.ping_q v.fresh);
}
