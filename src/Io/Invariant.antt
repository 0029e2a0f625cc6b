-- ===== src/Io/Invariant.antt =====
-- The invariant of the table, and that the calls of io.c keep it and do not fault.
use cheops_ng.Prelude.{
  ℕ, ◌+◌, ◌*◌, ◌%◌, ◌^◌, ◌≤◌, ◌<◌, ◌≡◌, refl, Bool, true, false, Bool-cases, Option, none, some,
  ltb, ◌⊎◌, inl, inr, ◌∙◌, arith,
}
use cheops_ng.Prelude.Int.{ℤ}
use cheops_ng.Io.Defs.{Io, Memory, initial, io_grow, appended, abandoned, add_entry, io_add}

-- `k` counts the times that the arrays grew.
pub record Sized (k : ℕ) (s : Io) : Type 0 where
  pub max_small : s.maxfdcnt < 2 ^ 32
  pub few_grows : 512 * k < 2 ^ 32
  pub grown : (s.maxfdcnt + 1) % 2 ^ 32 ≡ 512 * k
  pub used : s.fdcnt ≤ k
  pub fds_room : 512 * k ≤ s.fds_size
  pub ior_room : 512 * k ≤ s.ior_size

-- The entry at an index has an id of its own, which points to that index, and no other id is live.
pub record Linked (s : Io) : Type 0 where
  pub linked : (i : ℕ) → i < s.fdcnt → s.cell (s.ior i).id ≡ some i
  pub owned : (p i : ℕ) → s.cell p ≡ some i → (i < s.fdcnt) × ((s.ior i).id ≡ p)
  pub fresh : (p : ℕ) → s.next ≤ p → s.cell p ≡ none

pub initial-Sized : Sized 0 initial
initial-Sized = omega arith

pub initial-Linked : Linked initial
initial-Linked = record {
  linked = λ i h. absurd (omega arith);
  owned = λ p i e. absurd (cc);
  fresh = λ p h. refl;
}

-- What a new entry leaves alone.
pub record Untouched (s s' : Io) : Type 0 where
  pub entries : (i : ℕ) → i < s.fdcnt → (s'.fds i ≡ s.fds i) × (s'.ior i ≡ s.ior i)
  pub current : s'.current_ioc ≡ s.current_ioc
  pub flag : s'.remove_current_ioc ≡ s.remove_current_ioc
  pub ids : (p i : ℕ) → s.cell p ≡ some i → s'.cell p ≡ some i
  pub length : s.fdcnt ≤ s'.fdcnt

-- The arrays grow by 512 entries, or stay as they were, and the table is not touched.
pub record Grown (k : ℕ) (s : Io) (r : Bool × Io) : Type 0 where
  pub same : (r.1.fdcnt ≡ s.fdcnt) × (r.1.next ≡ s.next)
  pub untouched : Untouched s r.1
  pub kept : Linked r.1
  pub success : r.0 ≡ true → Sized (k + 1) r.1
  pub failure : r.0 ≡ false → Sized k r.1

io_grow-Grown :
    (memory : Memory) (k : ℕ) (s : Io)
    → 512 * (k + 1) < 2 ^ 32
    → Sized k s
    → Linked s
    → Grown k s (io_grow memory s)
unfolding io_grow
io_grow-Grown memory k s h z l = elim (Bool-cases (memory s.requests)) [
  | inr a ↦ rw a (record {
    same = (refl, refl);
    untouched = record {
      entries = λ i q. (refl, refl);
      current = refl;
      flag = refl;
      ids = λ p i q. q;
      length = omega arith;
    };
    kept = record { linked = l.linked; owned = l.owned; fresh = l.fresh };
    success = λ e. absurd (cc);
    failure = λ e. omega (arith, z);
  })
  | inl a ↦ elim (Bool-cases (memory (s.requests + 1))) [
    | inr b ↦
        rw (a, b)
          (record {
            same = (refl, refl);
            untouched = record {
              entries = λ i q. (refl, refl);
              current = refl;
              flag = refl;
              ids = λ p i q. q;
              length = omega arith;
            };
            kept = record { linked = l.linked; owned = l.owned; fresh = l.fresh };
            success = λ e. absurd (cc);
            failure = λ e. omega (arith, z);
          })
    | inl b ↦
        rw (a, b)
          (record {
            same = (refl, refl);
            untouched = record {
              entries = λ i q. (refl, refl);
              current = refl;
              flag = refl;
              ids = λ p i q. q;
              length = omega arith;
            };
            kept = record { linked = l.linked; owned = l.owned; fresh = l.fresh };
            success = λ e. omega (arith, z);
            failure = λ e. absurd (cc);
          })
  ]
]

-- What `cheops_io_add` returned: a new id for the entry at the end of the table, or NULL and the
-- table as it was.
abbrev pub AddedAt : ℤ → ℕ → ℕ → ℕ → Io → Option ℕ × Io → Type 0
AddedAt fd callback events arg s (some p, s') =
    (p ≡ s.next)
    × (s'.fdcnt ≡ s.fdcnt + 1)
    × (s'.cell p ≡ some s.fdcnt)
    × (s'.fds s.fdcnt ≡ record { fd = fd; events = events; revents = 0 })
    × (s'.ior s.fdcnt ≡ record { callback = callback; arg = arg; id = p })
AddedAt fd callback events arg s (none, s') = s'.fdcnt ≡ s.fdcnt

appended-Linked :
    (fd : ℤ) (callback events arg : ℕ) (s : Io)
    → Linked s
    → Linked (appended fd callback events arg s)
appended-Linked fd callback events arg s l =
    let unused : s.cell s.next ≡ none = l.fresh s.next (omega arith) in
    record {
      linked = λ i h. ground (arith, l.linked i, unused);
      owned = λ p i e. ground (arith, l.owned p i);
      fresh = λ p h. ground (arith, l.fresh p);
    }

abandoned-Linked :
    (fd : ℤ) (callback events arg : ℕ) (s : Io)
    → Linked s
    → Linked (abandoned fd callback events arg s)
abandoned-Linked fd callback events arg s l = record {
  linked = λ i h. ground (arith, l.linked i);
  owned = λ p i e. ground (arith, l.owned p i);
  fresh = l.fresh;
}

appended-Untouched :
    (fd : ℤ) (callback events arg : ℕ) (s : Io)
    → Linked s
    → Untouched s (appended fd callback events arg s)
appended-Untouched fd callback events arg s l = record {
  entries = λ i q. (ground arith, ground arith);
  current = refl;
  flag = refl;
  ids = λ p i q. ground (arith, l.fresh s.next (omega arith));
  length = omega arith;
}

abandoned-Untouched :
    (fd : ℤ) (callback events arg : ℕ) (s : Io) → Untouched s (abandoned fd callback events arg s)
abandoned-Untouched fd callback events arg s = record {
  entries = λ i q. (ground arith, ground arith);
  current = refl;
  flag = refl;
  ids = λ p i q. q;
  length = omega arith;
}

Untouched-trans : (a b c : Io) → Untouched a b → Untouched b c → Untouched a c
Untouched-trans a b c u v = record {
  entries = λ i q. (
    (v.entries i (omega (arith, u.length))).0 ∙ (u.entries i q).0,
    (v.entries i (omega (arith, u.length))).1 ∙ (u.entries i q).1,
  );
  current = v.current ∙ u.current;
  flag = v.flag ∙ u.flag;
  ids = λ p i q. v.ids p i (u.ids p i q);
  length = omega (arith, u.length, v.length);
}

add_entry-Linked :
    (memory : Memory) (fd : ℤ) (callback events arg k : ℕ) (s : Io)
    → s.fdcnt < k
    → Sized k s
    → Linked s
    → (r : Option ℕ × Io) × (add_entry memory fd callback events arg s ≡ some r)
      × Sized k r.1
      × Linked r.1
      × Untouched s r.1
      × AddedAt fd callback events arg s r
unfolding add_entry
add_entry-Linked memory fd callback events arg k s j z l = elim (Bool-cases (memory s.requests)) [
  | inl a ↦ (
    (some s.next, appended fd callback events arg s),
    ground (arith, z, a),
    omega (arith, z),
    appended-Linked fd callback events arg s l,
    appended-Untouched fd callback events arg s l,
    (refl, refl, ground arith, ground arith, ground arith),
  )
  | inr a ↦ (
    (none, abandoned fd callback events arg s),
    ground (arith, z, a),
    omega (arith, z),
    abandoned-Linked fd callback events arg s l,
    abandoned-Untouched fd callback events arg s,
    refl,
  )
]

AddedAt-same :
    (fd : ℤ) (callback events arg : ℕ) (s s' : Io) (r : Option ℕ × Io)
    → (s'.fdcnt ≡ s.fdcnt) × (s'.next ≡ s.next)
    → AddedAt fd callback events arg s' r
    → AddedAt fd callback events arg s r
AddedAt-same fd callback events arg s s' (some p, t) e a = rw (← e.0, ← e.1) a
AddedAt-same fd callback events arg s s' (none, t) e a = rw (← e.0) a

has_room : (k : ℕ) (s : Io) → Sized k s → ltb s.fdcnt s.maxfdcnt ≡ true
has_room k s z = ground (arith, z)

-- While the arrays have grown less than 2 ^ 23 times, `cheops_io_add` does not write outside of
-- them. It makes an entry at the end of the table and returns a new id that points to it, or
-- returns NULL and counts no entry; the arrays grow by 512 entries at most. The entries there were,
-- and their ids, stay as they are.
pub io_add-Linked :
    (memory : Memory) (fd : ℤ) (callback events arg k : ℕ) (s : Io)
    → 512 * (k + 1) < 2 ^ 32
    → Sized k s
    → Linked s
    → (r : Option ℕ × Io) × (io_add memory fd callback events arg s ≡ some r)
      × (Sized k r.1 ⊎ Sized (k + 1) r.1)
      × Linked r.1
      × Untouched s r.1
      × AddedAt fd callback events arg s r
unfolding io_add
io_add-Linked memory fd callback events arg k s h z l =
    let g = io_grow-Grown memory k s h z l in
    let s' = (io_grow memory s).1 in
    elim (Bool-cases (io_grow memory s).0) [
      | inl ok ↦
          let z' = g.success ok in
          let (r, e, z'', l', u, a) =
            add_entry-Linked memory fd callback events arg (k + 1) s' (omega (arith, z, g.same)) z'
              g.kept in
          (
            r,
            rw (has_room k s z, ok) e,
            inr z'',
            l',
            Untouched-trans s s' r.1 g.untouched u,
            AddedAt-same fd callback events arg s s' r g.same a,
          )
      | inr failed ↦ (
        (none, s'),
        rw (has_room k s z, failed),
        inl (g.failure failed),
        g.kept,
        g.untouched,
        g.same.0,
      )
    ]
