-- ===== src/Sched/Queue.antt =====
-- The queue of sched.c: what `schedule` and `cheops_sched_del` do to the list of entries.
use cheops_ng.Prelude.{
  ℕ, suc, ◌≡◌, ◌≢◌, refl, true, false, Bool-cases, ◌⊎◌, inl, inr, List, [], ◌∷◌, ◌++◌, none, some,
  ap, sym, ℕ_discrete, arith, length, All, All-map,
}
use cheops_ng.Sched.Time.{Timeval, sooner}
use cheops_ng.Sched.Order.{sooner_asymm, not_sooner_trans, sooner_through}
use cheops_ng.Sched.Defs.{Entry, insert, unlink_id}

-- Nothing in the list is due strictly before `t`.
abbrev pub NoneBefore : Timeval → List Entry → Type 0
NoneBefore t q = All (λ y. sooner y.when t ≡ false) q

-- The soonest entry comes first.
abbrev pub IsSorted : List Entry → Type 0
IsSorted [] = Unit
IsSorted (x ∷ q) = NoneBefore x.when q × IsSorted q

-- No entry of the list has the id.
abbrev pub Absent : ℕ → List Entry → Type 0
Absent id q = All (λ y. y.id ≢ id) q

abbrev pub IsDistinct : List Entry → Type 0
IsDistinct [] = Unit
IsDistinct (x ∷ q) = Absent x.id q × IsDistinct q

pub All-insert {ℓ} :
    (P : Entry → Type ℓ) (e : Entry) (q : List Entry) → P e → All P q → All P (insert e q)
unfolding insert
All-insert P e [] h hq = (h, tt)
All-insert P e (x ∷ q) h hq = elim (Bool-cases (sooner e.when x.when)) [
  | inl k ↦ rw k (h, hq)
  | inr k ↦ rw k (hq.0, All-insert P e q h hq.1)
]

pub length-insert : (e : Entry) (q : List Entry) → length (insert e q) ≡ suc (length q)
unfolding insert
length-insert e [] = refl
length-insert e (x ∷ q) = ground (arith, length-insert e q)

NoneBefore-mono :
    (s t : Timeval) (q : List Entry) → sooner t s ≡ false → NoneBefore t q → NoneBefore s q
NoneBefore-mono s t q h hq = All-map _ _ q (λ y k. not_sooner_trans s t y.when h k) hq

pub insert-IsSorted : (e : Entry) (q : List Entry) → IsSorted q → IsSorted (insert e q)
unfolding insert
insert-IsSorted e [] h = (tt, tt)
insert-IsSorted e (x ∷ q) h = elim (Bool-cases (sooner e.when x.when)) [
  | inl k ↦ rw k (
    (
      sooner_asymm e.when x.when k,
      NoneBefore-mono e.when x.when q (sooner_asymm e.when x.when k) h.0,
    ),
    h,
  )
  | inr k ↦ rw k (All-insert _ e q k h.0, insert-IsSorted e q h.1)
]

pub insert-IsDistinct :
    (e : Entry) (q : List Entry) → Absent e.id q → IsDistinct q → IsDistinct (insert e q)
unfolding insert
insert-IsDistinct e [] h d = (tt, tt)
insert-IsDistinct e (x ∷ q) h d = elim (Bool-cases (sooner e.when x.when)) [
  | inl k ↦ rw k (h, d)
  | inr k ↦ rw k (All-insert _ e q (λ c. h.0 (sym c)) d.0, insert-IsDistinct e q h.1 d.1)
]

-- Where an entry went: behind everything that is not strictly later, and before the rest.
pub record InsertedAt (e : Entry) (q before after : List Entry) : Type 0 where
  pub parts : q ≡ before ++ after
  pub result : insert e q ≡ before ++ (e ∷ after)
  pub not_later : All (λ y. sooner e.when y.when ≡ false) before
  pub later : All (λ y. sooner e.when y.when ≡ true) after

sooner_rest :
    (t u : Timeval) (q : List Entry)
    → sooner t u ≡ true
    → NoneBefore u q
    → All (λ y. sooner t y.when ≡ true) q
sooner_rest t u [] k h = tt
sooner_rest t u (y ∷ q) k h = (sooner_through t u y.when k h.0, sooner_rest t u q k h.1)

-- In a sorted queue `schedule` puts an entry after all that it is not sooner than, and before all
-- that it is sooner than; the others keep their order.
pub insert-InsertedAt :
    (e : Entry) (q : List Entry)
    → IsSorted q
    → (before : List Entry) × (after : List Entry) × InsertedAt e q before after
unfolding insert
insert-InsertedAt e [] h =
    ([], [], record { parts = refl; result = refl; not_later = tt; later = tt })
insert-InsertedAt e (x ∷ q) h = elim (Bool-cases (sooner e.when x.when)) [
  | inl k ↦ (
    [],
    x ∷ q,
    record {
      parts = refl;
      result = rw k;
      not_later = tt;
      later = (k, sooner_rest e.when x.when q k h.0);
    },
  )
  | inr k ↦
      let (before, after, at) = insert-InsertedAt e q h.1 in
      (
        x ∷ before,
        after,
        record {
          parts = ap (λ l. x ∷ l) at.parts;
          result = rw k (ap (λ l. x ∷ l) at.result);
          not_later = (k, at.not_later);
          later = at.later;
        },
      )
]

-- Which entry was taken out: the first one of the id.
pub record UnlinkedAt (id : ℕ) (q before : List Entry) (e : Entry) (after : List Entry)
    : Type 0 where
  pub parts : q ≡ before ++ (e ∷ after)
  pub result : unlink_id id q ≡ some (before ++ after)
  pub first : Absent id before
  pub named : e.id ≡ id

abbrev pub Unlinked : ℕ → List Entry → Type 0
Unlinked id q =
    (Absent id q × (unlink_id id q ≡ none))
    ⊎ ((before : List Entry) × (e : Entry) × (after : List Entry) × UnlinkedAt id q before e after)

pub unlink_id-Unlinked : (id : ℕ) (q : List Entry) → Unlinked id q
unfolding unlink_id
unlink_id-Unlinked id [] = inl (tt, refl)
unlink_id-Unlinked id (x ∷ q) = elim (ℕ_discrete x.id id) [
  | yes here ↦
      inr ([], x, q, record { parts = refl; result = ground arith; first = tt; named = here })
  | no other ↦ elim (unlink_id-Unlinked id q) [
    | inl (gone, e) ↦ inl ((other, gone), ground arith)
    | inr (before, e, after, at) ↦ inr (
      x ∷ before,
      e,
      after,
      record {
        parts = ap (λ l. x ∷ l) at.parts;
        result = ground (arith, at.result);
        first = (other, at.first);
        named = at.named;
      },
    )
  ]
]
