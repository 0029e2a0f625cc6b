-- ===== src/Sched/Invariant.antt =====
-- The invariant of the scheduler, and that every operation keeps it.
use cheops_ng.Prelude.{
  ℕ, ◌+◌, ◌-◌, ◌≤◌, ◌<◌, ◌≡◌, refl, Bool-cases, Option-cases, inl, inr, List, [], ◌∷◌, ◌++◌, ap,
  sym, subst, arith, length, All, ltb,
}
use cheops_ng.Sched.Time.{sched_settime}
use cheops_ng.Sched.Defs.{
  Entry, Scheduler, Os, initial, insert, sched_release, schedule, sched_del, read_clock, enqueue,
  sched_wait, sched_max_cache,
}
use cheops_ng.Sched.Queue.{
  IsSorted, IsDistinct, Absent, All-insert, length-insert, insert-IsSorted, insert-IsDistinct,
  unlink_id-Unlinked,
}
use cheops_ng.Sched.Removal.{
  All-drop_middle, length-drop_middle, IsSorted-drop_middle, IsDistinct-drop_middle,
}

abbrev pub Below : ℕ → Entry → Type 0
Below n e = e.id < n

-- `held` lists the entries that a running operation has off the queue and not released.
pub record Inv (held : List Entry) (s : Scheduler) : Type 0 where
  pub counted : s.schedcnt ≡ length s.schedq
  pub cached : s.schedccnt ≡ length s.schedc
  pub bounded : s.schedccnt ≤ sched_max_cache
  pub sorted : IsSorted s.schedq
  pub distinct : IsDistinct s.schedq
  pub fresh : All (Below s.eventcnt) s.schedq
  pub held_distinct : IsDistinct held
  pub held_fresh : All (Below s.eventcnt) held
  pub apart : All (λ e. Absent e.id s.schedq) held
  pub owned : length held + length s.schedq + length s.schedc ≤ s.allocated

-- Between calls no entry is held.
abbrev pub IsValid : Scheduler → Type 0
IsValid s = Inv [] s

pub initial-IsValid : IsValid initial
initial-IsValid = record {
  counted = refl;
  cached = refl;
  bounded = omega arith;
  sorted = tt;
  distinct = tt;
  fresh = tt;
  held_distinct = tt;
  held_fresh = tt;
  apart = tt;
  owned = omega arith;
}

pub release-Inv :
    (held : List Entry) (e : Entry) (s : Scheduler)
    → Inv (e ∷ held) s
    → Inv held (sched_release e s)
unfolding sched_release
release-Inv held e s v = elim (Bool-cases (ltb s.schedccnt sched_max_cache)) [
  | inl k ↦ rw k (ground arith)
  | inr k ↦ rw k (ground arith)
]

apart_insert :
    (held : List Entry) (e : Entry) (q : List Entry)
    → Absent e.id held
    → All (λ h. Absent h.id q) held
    → All (λ h. Absent h.id (insert e q)) held
apart_insert [] e q d a = tt
apart_insert (h ∷ held) e q d a =
    (All-insert _ e q (λ c. d.0 (sym c)) a.0, apart_insert held e q d.1 a.1)

pub schedule-Inv :
    (held : List Entry) (e : Entry) (s : Scheduler) → Inv (e ∷ held) s → Inv held (schedule e s)
unfolding schedule
schedule-Inv held e s v = record {
  counted = omega (arith, v.counted, length-insert e s.schedq);
  cached = v.cached;
  bounded = v.bounded;
  sorted = insert-IsSorted e s.schedq v.sorted;
  distinct = insert-IsDistinct e s.schedq v.apart.0 v.distinct;
  fresh = All-insert _ e s.schedq v.held_fresh.0 v.fresh;
  held_distinct = v.held_distinct.1;
  held_fresh = v.held_fresh.1;
  apart = apart_insert held e s.schedq v.held_distinct.0 v.apart.1;
  owned = omega (arith, v.owned, length-insert e s.schedq);
}

apart_drop :
    (held before : List Entry) (e : Entry) (after : List Entry)
    → All (λ h. Absent h.id (before ++ (e ∷ after))) held
    → All (λ h. Absent h.id (before ++ after)) held
apart_drop [] before e after a = tt
apart_drop (h ∷ held) before e after a =
    (All-drop_middle _ before e after a.0, apart_drop held before e after a.1)

-- The scheduler with the entry at a place of its queue taken out.
abbrev pub without : List Entry → Scheduler → Scheduler
without q s = record s { schedq = q; schedcnt = s.schedcnt - 1 }

pub without-Inv :
    (held before : List Entry) (e : Entry) (after : List Entry) (s : Scheduler)
    → s.schedq ≡ before ++ (e ∷ after)
    → Inv held s
    → Inv held (without (before ++ after) s)
without-Inv held before e after s p v = record {
  counted = omega (arith, v.counted, ap length p, length-drop_middle before e after);
  cached = v.cached;
  bounded = v.bounded;
  sorted = IsSorted-drop_middle before e after (subst IsSorted p v.sorted);
  distinct = IsDistinct-drop_middle before e after (subst IsDistinct p v.distinct);
  fresh = All-drop_middle _ before e after (subst (All (Below s.eventcnt)) p v.fresh);
  held_distinct = v.held_distinct;
  held_fresh = v.held_fresh;
  apart = apart_drop held before e after (subst (λ q. All (λ h. Absent h.id q) held) p v.apart);
  owned = omega (arith, v.owned, ap length p, length-drop_middle before e after);
}

pub del-Inv :
    (held : List Entry) (id : ℕ) (s : Scheduler) → Inv held s → Inv held (sched_del id s).1
unfolding sched_del
del-Inv held id s v = elim (unlink_id-Unlinked id s.schedq) [
  | inl (gone, e) ↦ rw (e, sched_del) v
  | inr (before, e, after, at) ↦
      rw (at.result, sched_del) (without-Inv held before e after s at.parts v)
]

-- A taken entry moves from the queue to the held ones.
pub take-Inv :
    (e : Entry) (q : List Entry) (s : Scheduler)
    → s.schedq ≡ e ∷ q
    → IsValid s
    → Inv (e ∷ []) (without q s)
take-Inv e q s p v = record {
  counted = v'.counted;
  cached = v'.cached;
  bounded = v'.bounded;
  sorted = v'.sorted;
  distinct = v'.distinct;
  fresh = v'.fresh;
  held_distinct = (tt, tt);
  held_fresh = ((subst (All (Below s.eventcnt)) p v.fresh).0, tt);
  apart = ((subst IsDistinct p v.distinct).0, tt);
  owned = omega (arith, v.owned, ap length p);
}
  where
    v' : Inv [] (without q s)
    v' = without-Inv [] [] e q s p v

module _ (os : Os) where
  pub enqueue-Inv :
      (held : List Entry) (e : Entry) (s : Scheduler)
      → Inv (e ∷ held) s
      → Inv held (enqueue os e s).1
  unfolding enqueue read_clock
  enqueue-Inv held e s v =
      elim (Option-cases (sched_settime (os.gettimeofday s.clock_reads) e.resched)) [
        | inl f ↦
            rw (f, enqueue)
              (release-Inv held e (record s { clock_reads = s.clock_reads + 1 }) (ground arith))
        | inr (w, f) ↦
            rw (f, enqueue)
              (schedule-Inv held (record e { when = w })
                (record s { clock_reads = s.clock_reads + 1 }) (ground arith))
      ]

  pub wait-Inv : (held : List Entry) (s : Scheduler) → Inv held s → Inv held (sched_wait os s).1
  unfolding sched_wait read_clock
  wait-Inv held s v = queue_cases s.schedq refl
    where
      queue_cases : (q : List Entry) → s.schedq ≡ q → Inv held (sched_wait os s).1
      queue_cases [] e = rw (e, sched_wait) v
      queue_cases (x ∷ q) e = rw (e, sched_wait) (ground arith)
