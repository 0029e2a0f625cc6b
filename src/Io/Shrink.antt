-- ===== src/Io/Shrink.antt =====
-- `io_shrink` and `cheops_io_remove`: the last entry covers the one removed, and ids stay good.
use cheops_ng.Prelude.{
  update, ℕ, ◌+◌, ◌-◌, ◌%◌, ◌^◌, ◌<◌, ◌≡◌, ◌≢◌, refl, true, false, none, some, ltb, ◌==◌, ◌∙◌, ap,
  arith, ℕ_discrete,
}
use cheops_ng.Prelude.Int.{pos, negsuc, eqb_ℤ}
use cheops_ng.Io.Defs.{Io, free_id, store_id, move_last, remove_at, io_shrink, io_remove}
use cheops_ng.Io.Invariant.{Sized, Linked}

-- The table without its last entry.
abbrev cut : Io → Io
cut s = record s { fdcnt = s.fdcnt - 1; cell = update s.cell (s.ior (s.fdcnt - 1)).id none }

-- The table with the last entry at the index `w`.
abbrev pub covered : ℕ → Io → Io
covered w s = record s {
  fdcnt = s.fdcnt - 1;
  fds = update s.fds w (s.fds (s.fdcnt - 1));
  ior = update s.ior w (s.ior (s.fdcnt - 1));
  cell = update (update s.cell (s.ior w).id none) (s.ior (s.fdcnt - 1)).id (some w);
}

-- Two entries have two ids.
pub ids_apart :
    (s : Io)
    → Linked s
    → (i j : ℕ) → i < s.fdcnt
    → j < s.fdcnt
    → i ≢ j
    → (s.ior i).id ≢ (s.ior j).id
ids_apart s l i j hi hj h e = ground (arith, l.linked i hi, l.linked j hj)

pub free_id-live :
    (p i : ℕ) (s : Io)
    → s.cell p ≡ some i
    → free_id p s ≡ some (record s { cell = update s.cell p none })
unfolding free_id
free_id-live p i s e = rw (e, free_id)

pub store_id-live :
    (p v i : ℕ) (s : Io)
    → s.cell p ≡ some i
    → store_id p v s ≡ some (record s { cell = update s.cell p (some v) })
unfolding store_id
store_id-live p v i s e = rw (e, store_id)

move_last-same : (w : ℕ) (s : Io) → w ≡ s.fdcnt → move_last w s ≡ some s
unfolding move_last
move_last-same w s e = let same : (w == s.fdcnt) ≡ true = ground arith in rw same

pub move_last-other :
    (w : ℕ) (s : Io)
    → w ≢ s.fdcnt
    → move_last w s
      ≡ store_id
          (s.ior s.fdcnt).id
          w
          (record s { fds = update s.fds w (s.fds s.fdcnt); ior = update s.ior w (s.ior s.fdcnt) })
unfolding move_last
move_last-other w s e = let other : (w == s.fdcnt) ≡ false = ground arith in rw other

lowered : (s : Io) → 0 < s.fdcnt → s.fdcnt < 2 ^ 32 → (s.fdcnt + 2 ^ 32 - 1) % 2 ^ 32 ≡ s.fdcnt - 1
lowered s h k = omega arith

pub remove_at-freed :
    (w : ℕ) (s s' : Io) → free_id (s.ior w).id s ≡ some s' → remove_at w s ≡ move_last w s'
unfolding remove_at
remove_at-freed w s s' e = rw (e, remove_at)

pub io_shrink-remove_at :
    (w : ℕ) (s : Io)
    → 0 < s.fdcnt
    → s.fdcnt < 2 ^ 32
    → io_shrink w s ≡ remove_at w (record s { fdcnt = s.fdcnt - 1 })
unfolding io_shrink
io_shrink-remove_at w s h k = ap (λ n. remove_at w (record s { fdcnt = n })) (lowered s h k)

io_shrink-cut :
    (s : Io) → s.fdcnt < 2 ^ 32 → 0 < s.fdcnt → Linked s → io_shrink (s.fdcnt - 1) s ≡ some (cut s)
io_shrink-cut s h k l =
    let fewer = record s { fdcnt = s.fdcnt - 1 } in
    let e =
      free_id-live (s.ior (s.fdcnt - 1)).id (s.fdcnt - 1) fewer
        (l.linked (s.fdcnt - 1) (omega arith)) in
    io_shrink-remove_at (s.fdcnt - 1) s k h
    ∙ remove_at-freed (s.fdcnt - 1) fewer (cut s) e
    ∙ (move_last-same (s.fdcnt - 1) (cut s) refl)

pub io_shrink-covered :
    (w : ℕ) (s : Io)
    → s.fdcnt < 2 ^ 32
    → w < s.fdcnt - 1
    → Linked s
    → io_shrink w s ≡ some (covered w s)
io_shrink-covered w s h k l =
    let n = s.fdcnt - 1 in
    let fewer = record s { fdcnt = n } in
    let freed = record fewer { cell = update s.cell (s.ior w).id none } in
    let e = free_id-live (s.ior w).id w fewer (l.linked w (omega arith)) in
    let live : freed.cell (s.ior n).id ≡ some n = ground (arith, ids_apart s l w n, l.linked n) in
    io_shrink-remove_at w s (omega arith) h
    ∙ remove_at-freed w fewer freed e
    ∙ (move_last-other w freed (omega arith)
        ∙ store_id-live (s.ior n).id w n
            (record freed { fds = update s.fds w (s.fds n); ior = update s.ior w (s.ior n) }) live)

cut-Linked : (s : Io) → 0 < s.fdcnt → Linked s → Linked (cut s)
cut-Linked s h l = record {
  linked = λ i k.
      ground (
        arith,
        l.linked i,
        ids_apart s l i (s.fdcnt - 1) (omega arith) (omega arith) (omega arith),
      );
  owned = λ p i e. ground (arith, l.owned p i);
  fresh = λ p k. ground (arith, l.fresh p);
}

covered-Linked : (w : ℕ) (s : Io) → w < s.fdcnt - 1 → Linked s → Linked (covered w s)
covered-Linked w s h l = record {
  linked = λ i k. ground (
    arith,
    l.linked i,
    ids_apart s l w (s.fdcnt - 1),
    ids_apart s l i w,
    ids_apart s l i (s.fdcnt - 1),
  );
  owned =
      λ p i e. ground (arith, l.owned p i, l.owned p w, ids_apart s l i w, l.linked (s.fdcnt - 1));
  fresh = λ p k. ground (arith, l.fresh p, l.linked (s.fdcnt - 1));
}

-- The entry of the index `w` is gone, and its id is freed. Every other id still leads to its entry,
-- though perhaps at another index.
pub record Removed (w : ℕ) (s s' : Io) : Type 0 where
  pub count : s'.fdcnt + 1 ≡ s.fdcnt
  pub freed : s'.cell (s.ior w).id ≡ none
  pub others :
      (p i : ℕ)
      → p ≢ (s.ior w).id
      → s.cell p ≡ some i
      → (j : ℕ) × (s'.cell p ≡ some j) × (s'.fds j ≡ s.fds i) × (s'.ior j ≡ s.ior i)

cut-Removed : (s : Io) → 0 < s.fdcnt → Linked s → Removed (s.fdcnt - 1) s (cut s)
cut-Removed s h l = record {
  count = omega arith;
  freed = ground arith;
  others = λ p i ne e. (i, ground (arith, e), refl, refl);
}

covered-Removed : (w : ℕ) (s : Io) → w < s.fdcnt - 1 → Linked s → Removed w s (covered w s)
covered-Removed w s h l = record {
  count = omega arith;
  freed = ground (arith, ids_apart s l w (s.fdcnt - 1));
  others = λ p i ne e. elim (ℕ_discrete i (s.fdcnt - 1)) [
    | yes last ↦ (w, ground (arith, l.owned p i e), ground arith, ground arith)
    | no kept ↦ (
      i,
      ground (arith, l.owned p i e, l.linked (s.fdcnt - 1)),
      ground (arith, l.owned p i e, l.linked w),
      ground (arith, l.owned p i e, l.linked w),
    )
  ];
}

-- `io_shrink` at an index of the table does not fault, keeps ids and indices in step, and takes
-- out that entry alone.
pub io_shrink-Removed :
    (k w : ℕ) (s : Io)
    → Sized k s
    → Linked s
    → w < s.fdcnt
    → (s' : Io) × (io_shrink w s ≡ some s') × Sized k s' × Linked s' × Removed w s s'
io_shrink-Removed k w s z l h = elim (ℕ_discrete w (s.fdcnt - 1)) [
  | yes last ↦ (
    cut s,
    ap (λ v. io_shrink v s) last ∙ io_shrink-cut s (omega (arith, z)) (omega arith) l,
    omega (arith, z),
    cut-Linked s (omega arith) l,
    rw last (cut-Removed s (omega arith) l),
  )
  | no inner ↦ (
    covered w s,
    io_shrink-covered w s (omega (arith, z)) (omega arith) l,
    omega (arith, z),
    covered-Linked w s (omega arith) l,
    covered-Removed w s (omega arith) l,
  )
]

pub io_remove-io_shrink :
    (p i : ℕ) (s s' : Io)
    → s.cell p ≡ some i
    → eqb_ℤ s.current_ioc (pos i) ≡ false
    → i < s.fdcnt
    → io_shrink i s ≡ some s'
    → io_remove p s ≡ some (pos 0, s')
unfolding io_remove
io_remove-io_shrink p i s s' e c h shrunk =
    let below : ltb i s.fdcnt ≡ true = ground arith in rw (e, io_remove, c, below, shrunk)

-- `cheops_io_remove` of a live id whose callback is not running returns 0 without a fault, keeps
-- ids and indices in step, frees the id, and takes out its entry alone.
pub io_remove-Removed :
    (k p i : ℕ) (s : Io)
    → Sized k s
    → Linked s
    → s.cell p ≡ some i
    → eqb_ℤ s.current_ioc (pos i) ≡ false
    → (s' : Io) × (io_remove p s ≡ some (pos 0, s')) × Sized k s' × Linked s' × Removed i s s'
io_remove-Removed k p i s z l e c =
    let h = (l.owned p i e).0 in
    let (s', shrunk, z', l', r) = io_shrink-Removed k i s z l h in
    (s', io_remove-io_shrink p i s s' e c h shrunk, z', l', r)

-- An entry whose callback is running is only marked, and the result is -1.
pub io_remove-marks :
    (p i : ℕ) (s : Io)
    → s.cell p ≡ some i
    → s.current_ioc ≡ pos i
    → io_remove p s ≡ some (negsuc 0, record s { remove_current_ioc = true })
unfolding io_remove
io_remove-marks p i s e c =
    let same : eqb_ℤ s.current_ioc (pos i) ≡ true = ground arith in rw (e, io_remove, same)
