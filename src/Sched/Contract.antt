-- ===== src/Sched/Contract.antt =====
-- What a caller of sched.c may rely on: the result of each call beside what it does to the queue.
use cheops_ng.Prelude.{
  ℕ, suc, ◌+◌, ◌≡◌, refl, Bool, true, false, Bool-cases, Option-cases, ◌⊎◌, inl, inr, List, [], ◌∷◌,
  ◌++◌, none, some, ap, sym, ◌∙◌, subst, arith, length,
}
use mathlib.Core.Path.{ap₂}
use cheops_ng.Prelude.Int.{ℤ, pos, negsuc, eqb_ℤ}
use cheops_ng.Sched.Time.{Timeval, add_ms, sched_settime}
use cheops_ng.Sched.Defs.{
  Entry, Scheduler, Os, new_entry, insert, unlink_id, schedule, sched_release, sched_del,
  sched_alloc, read_clock, enqueue, add_entry, sched_add,
}
use cheops_ng.Sched.Queue.{IsDistinct, Absent, UnlinkedAt, unlink_id-Unlinked}
use cheops_ng.Sched.Removal.{length-drop_middle, Absent-drop_middle}
use cheops_ng.Sched.Invariant.{IsValid}
use cheops_ng.Sched.Safety.{Below-Absent}

release-schedq : (e : Entry) (s : Scheduler) → (sched_release e s).schedq ≡ s.schedq
unfolding sched_release
release-schedq e s = ground arith

-- Deleting what was just inserted gives the queue back.
unlink_id-insert :
    (e : Entry) (q : List Entry) → Absent e.id q → unlink_id e.id (insert e q) ≡ some q
unfolding unlink_id insert
unlink_id-insert e [] h = ground arith
unlink_id-insert e (x ∷ q) h = ground (arith, unlink_id-insert e q)

unlink_id-Absent : (id : ℕ) (q : List Entry) → Absent id q → unlink_id id q ≡ none
unfolding unlink_id
unlink_id-Absent id [] h = refl
unlink_id-Absent id (x ∷ q) h = ground (arith, unlink_id-Absent id q)

-- `cheops_sched_del` of an id: 0 and the queue without its entry, which leaves no other of that
-- id, or -1 and no change if no entry has the id. The other entries keep their order.
pub sched_del_lem :
    (id : ℕ) (s : Scheduler)
    → IsValid s
    → let (res, s') = sched_del id s in
      (Absent id s.schedq × (res ≡ negsuc 0) × (s' ≡ s))
      ⊎ ((before : List Entry) × (e : Entry) × (after : List Entry) × (e.id ≡ id)
          × (s.schedq ≡ before ++ (e ∷ after))
          × (s'.schedq ≡ before ++ after)
          × Absent id s'.schedq
          × (res ≡ pos 0))
unfolding sched_del
sched_del_lem id s v = elim (unlink_id-Unlinked id s.schedq) [
  | inl (gone, e) ↦ rw (e, sched_del) (inl (gone, refl, refl))
  | inr (before, e, after, at) ↦
      rw (at.result, sched_del)
        (inr (before, e, after, at.named, at.parts, refl, gone_from before e after at, refl))
]
  where
    gone_from :
        (before : List Entry) (e : Entry) (after : List Entry)
        → UnlinkedAt id s.schedq before e after
        → Absent id (before ++ after)
    gone_from before e after at =
        subst (λ i. Absent i (before ++ after)) at.named
          (Absent-drop_middle before e after (subst IsDistinct at.parts v.distinct))

-- A successful `cheops_sched_del` does not release the entry: one more allocated entry is in
-- neither the queue nor the cache.
pub del-leaks :
    (id : ℕ) (s : Scheduler)
    → (sched_del id s).0 ≡ pos 0
    → let s' = (sched_del id s).1 in
      (s'.allocated ≡ s.allocated)
      × (length s.schedq + length s.schedc ≡ suc (length s'.schedq + length s'.schedc))
unfolding sched_del
del-leaks id s h = elim (unlink_id-Unlinked id s.schedq) [
  | inl (gone, e) ↦ absurd (ground arith)
  | inr (before, e, after, at) ↦
      rw (at.result, sched_del)
        (refl, omega (arith, ap length at.parts, length-drop_middle before e after))
]

-- The id is deleted, which gives the queue `q`, and then it is gone.
abbrev DeletedOnce : List Entry → Scheduler → ℕ → Type 0
DeletedOnce q s id =
    ((sched_del id s).0 ≡ pos 0)
    × ((sched_del id s).1.schedq ≡ q)
    × (sched_del id (sched_del id s).1 ≡ (negsuc 0, (sched_del id s).1))

del-inserted :
    (e : Entry) (q : List Entry) (s : Scheduler)
    → Absent e.id q
    → s.schedq ≡ insert e q
    → DeletedOnce q s e.id
unfolding sched_del
del-inserted e q s h p =
    let found : unlink_id e.id s.schedq ≡ some q = rw p (unlink_id-insert e q h) in
    let gone = unlink_id-Absent e.id q h in ground (arith, found, gone)

abbrev pub entry_of : ℤ → ℕ → ℕ → Scheduler → Timeval → Entry
entry_of when callback arg s now = record (new_entry when callback arg s.eventcnt) {
  when = add_ms now when;
}

module _ (os : Os) (when : ℤ) (callback arg : ℕ) where
  alloc_keeps :
      (s : Scheduler)
      → let s' = (sched_alloc os s).1 in
        (s'.schedq ≡ s.schedq) × (s'.clock_reads ≡ s.clock_reads) × (s'.eventcnt ≡ s.eventcnt)
  unfolding sched_alloc
  alloc_keeps s = ground arith

  -- -1 and the queue as it was, or the id counted and the entry in the queue at its time.
  abbrev pub Added : Scheduler → ℤ × Scheduler → Type 0
  Added s (res, s') =
      ((res ≡ negsuc 0) × (s'.schedq ≡ s.schedq))
      ⊎ ((now : Timeval) × (os.gettimeofday s.clock_reads ≡ some now)
          × (res ≡ pos s.eventcnt)
          × (s'.schedq ≡ insert (entry_of when callback arg s now) s.schedq))

  add_entry-Added : (got : Bool) (s : Scheduler) → Added s (add_entry os when callback arg (got, s))
  unfolding add_entry enqueue read_clock sched_settime schedule
  add_entry-Added false s = inl (refl, refl)
  add_entry-Added true s = elim (Option-cases (os.gettimeofday s.clock_reads)) [
    | inl k ↦ inl (
      ground (arith, k),
      ground (
        arith,
        k,
        release-schedq (new_entry when callback arg s.eventcnt)
            (record s { eventcnt = s.eventcnt + 1; clock_reads = s.clock_reads + 1 }),
      ),
    )
    | inr (now, k) ↦ inr (now, k, ground arith, ground arith)
  ]

  Added-same :
      (s s' : Scheduler) (r : ℤ × Scheduler)
      → s'.schedq ≡ s.schedq
      → s'.clock_reads ≡ s.clock_reads
      → s'.eventcnt ≡ s.eventcnt
      → Added s' r
      → Added s r
  Added-same s s' (res, t) q c n (inl (a, b)) = inl (a, b ∙ q)
  Added-same s s' (res, t) q c n (inr (now, k, a, b)) = inr (
    now,
    ap os.gettimeofday (sym c) ∙ k,
    a ∙ ap pos n,
    b
        ∙ ap₂
            (λ (i : ℕ) (l : List Entry).
              insert (record (new_entry when callback arg i) { when = add_ms now when }) l)
            n q,
  )

  -- `cheops_sched_add` ends in one of two ways.
  pub add-Added : (s : Scheduler) → Added s (sched_add os when callback arg s)
  unfolding sched_add
  add-Added s = elim (Bool-cases (eqb_ℤ when (pos 0))) [
    | inl k ↦ rw (k, sched_add) (inl (refl, refl))
    | inr k ↦
        let (same_q, same_c, same_n) = alloc_keeps s in
        rw (k, sched_add)
          (Added-same s (sched_alloc os s).1 (add_entry os when callback arg (sched_alloc os s))
            same_q same_c same_n (add_entry-Added (sched_alloc os s).0 (sched_alloc os s).1))
  ]

  -- The id that a successful `cheops_sched_add` returned serves to delete the entry once: the queue
  -- is then what it was before, and a second deletion returns -1 and changes nothing.
  pub del-add :
      (s : Scheduler) (id : ℕ)
      → IsValid s
      → (sched_add os when callback arg s).0 ≡ pos id
      → let s' = (sched_add os when callback arg s).1 in
        let (res, s'') = sched_del id s' in
        (res ≡ pos 0) × (s''.schedq ≡ s.schedq) × (sched_del id s'' ≡ (negsuc 0, s''))
  del-add s id v h = elim (add-Added s) [
    | inl (k, _) ↦ absurd (cc)
    | inr (now, _, k, q) ↦
        let named : s.eventcnt ≡ id = cc in
        let fresh = Below-Absent s.eventcnt s.schedq v.fresh in
        subst (DeletedOnce s.schedq (sched_add os when callback arg s).1) named (
          del-inserted (entry_of when callback arg s now) s.schedq
            (sched_add os when callback arg s).1 fresh q)
  ]
