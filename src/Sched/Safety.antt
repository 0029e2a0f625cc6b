-- ===== src/Sched/Safety.antt =====
-- `cheops_sched_add` and `cheops_sched_runq` keep the invariant of the scheduler, whatever the
-- callbacks, the clock and malloc() do.
use cheops_ng.Prelude.{
  ℕ, zero, suc, ◌+◌, ◌≤◌, ◌≡◌, refl, Bool, true, false, Bool-cases, Option-cases, inl, inr, List,
  [], ◌∷◌, Option, none, some, ap, subst, arith, length, All, All-map,
}
use cheops_ng.Prelude.Int.{ℤ, pos, eqb_ℤ}
use cheops_ng.Sched.Time.{sooner}
use cheops_ng.Sched.Defs.{
  Entry, Scheduler, Os, new_entry, sched_alloc, read_clock, add_entry, sched_add,
}
use cheops_ng.Sched.Runq.{
  Call, add, del, Reaction, Callbacks, Turn, idle, no_clock, later, due, horizon, do_call, do_calls,
  take_turn, launch, runq_loop, sched_runq,
}
use cheops_ng.Sched.Queue.{Absent}
use cheops_ng.Sched.Invariant.{Below, Inv, IsValid, release-Inv, del-Inv, take-Inv, enqueue-Inv}

-- Ids that were counted differ from the next one.
pub Below-Absent : (n : ℕ) (q : List Entry) → All (Below n) q → Absent n q
Below-Absent n q h = All-map _ _ q (λ y b. omega arith) h

Below-suc : (n : ℕ) (q : List Entry) → All (Below n) q → All (Below (n + 1)) q
Below-suc n q h = All-map _ _ q (λ y b. omega arith) h

-- A new entry is held under a fresh id, if there is one more allocated entry than is accounted for.
new-Inv :
    (held : List Entry) (e : Entry) (s : Scheduler)
    → e.id ≡ s.eventcnt
    → suc (length held + length s.schedq + length s.schedc) ≤ s.allocated
    → Inv held s
    → Inv (e ∷ held) (record s { eventcnt = s.eventcnt + 1 })
new-Inv held e s i room v = record {
  counted = v.counted;
  cached = v.cached;
  bounded = v.bounded;
  sorted = v.sorted;
  distinct = v.distinct;
  fresh = Below-suc _ _ v.fresh;
  held_distinct = (rw i (Below-Absent _ _ v.held_fresh), v.held_distinct);
  held_fresh = (omega arith, Below-suc _ _ v.held_fresh);
  apart = (rw i (Below-Absent _ _ v.fresh), v.apart);
  owned = omega (arith, room);
}

module _ (os : Os) where
  -- What `sched_alloc` returns: room for the entry, if it says so.
  alloc-Inv :
      (held : List Entry) (s : Scheduler)
      → Inv held s
      → let (got, s') = sched_alloc os s in
        Inv held s'
        × (got ≡ true → suc (length held + length s'.schedq + length s'.schedc) ≤ s'.allocated)
  unfolding sched_alloc
  alloc-Inv held s v = cache_cases s.schedc refl
    where
      cache_cases :
          (c : List Entry)
          → s.schedc ≡ c
          → let (got, s') = sched_alloc os s in
            Inv held s'
            × (got ≡ true → suc (length held + length s'.schedq + length s'.schedc) ≤ s'.allocated)
      cache_cases [] e = elim (Bool-cases (os.malloc s.mallocs)) [
        | inl k ↦ rw (e, sched_alloc, k) (ground arith)
        | inr k ↦ rw (e, sched_alloc, k) (ground arith)
      ]
      cache_cases (x ∷ c) e = rw (e, sched_alloc) (ground (arith, ap length e))

  add_entry-Inv :
      (held : List Entry) (when : ℤ) (callback arg : ℕ) (got : Bool) (s : Scheduler)
      → Inv held s
      → (got ≡ true → suc (length held + length s.schedq + length s.schedc) ≤ s.allocated)
      → Inv held (add_entry os when callback arg (got, s)).1
  unfolding add_entry
  add_entry-Inv held when callback arg false s v room = v
  add_entry-Inv held when callback arg true s v room =
      enqueue-Inv os held (new_entry when callback arg s.eventcnt) _
        (new-Inv held (new_entry when callback arg s.eventcnt) s refl (room refl) v)

  pub add-Inv :
      (held : List Entry) (when : ℤ) (callback arg : ℕ) (s : Scheduler)
      → Inv held s
      → Inv held (sched_add os when callback arg s).1
  unfolding sched_add
  add-Inv held when callback arg s v = elim (Bool-cases (eqb_ℤ when (pos 0))) [
    | inl k ↦ rw (k, sched_add) v
    | inr k ↦
        let (v', room) = alloc-Inv held s v in
        rw (k, sched_add) (add_entry-Inv held when callback arg _ _ v' room)
  ]

  pub call-Inv :
      (held : List Entry) (c : Call) (s : Scheduler) → Inv held s → Inv held (do_call os c s)
  unfolding do_call
  call-Inv held (add when callback arg) s v = add-Inv held when callback arg s v
  call-Inv held (del id) s v = del-Inv held id s v

  calls-Inv :
      (held : List Entry) (cs : List Call) (s : Scheduler)
      → Inv held s
      → Inv held (do_calls os cs s)
  unfolding do_calls
  calls-Inv held [] s v = v
  calls-Inv held (c ∷ cs) s v = calls-Inv held cs (do_call os c s) (call-Inv held c s v)

  pub launch-Inv :
      (react : Callbacks) (e : Entry) (s : Scheduler)
      → Inv (e ∷ []) s
      → IsValid (launch os react e s)
  unfolding launch
  launch-Inv react e s v =
      let r : Reaction = react e.callback e.arg s in
      let v' = calls-Inv (e ∷ []) r.calls s v in
      elim (Bool-cases (react e.callback e.arg s).again) [
        | inl k ↦ rw k (enqueue-Inv os [] e _ v')
        | inr k ↦ rw k (release-Inv [] e _ v')
      ]

  -- What a turn hands on keeps the invariant: an entry that is due is held.
  abbrev pub TurnInv : Turn → Type 0
  TurnInv (idle s) = IsValid s
  TurnInv (no_clock s) = IsValid s
  TurnInv (later s) = IsValid s
  TurnInv (due e s) = Inv (e ∷ []) s

  pub turn-Inv : (s : Scheduler) → IsValid s → TurnInv (take_turn os s)
  unfolding take_turn read_clock
  turn-Inv s v = queue_cases s.schedq refl
    where
      clock_cases : (e : Entry) (q : List Entry) → s.schedq ≡ e ∷ q → TurnInv (take_turn os s)
      clock_cases e q p = elim (Option-cases (os.gettimeofday s.clock_reads)) [
        | inl k ↦ rw (p, take_turn, k) (ground arith)
        | inr (tv, k) ↦ elim (Bool-cases (sooner e.when (horizon tv))) [
          | inl h ↦
              rw (p, take_turn, k, h)
                (take-Inv e q (record s { clock_reads = s.clock_reads + 1 }) p (ground arith))
          | inr h ↦ rw (p, take_turn, k, h) (ground arith)
        ]
      ]

      queue_cases : (q : List Entry) → s.schedq ≡ q → TurnInv (take_turn os s)
      queue_cases [] p = rw (p, take_turn) v
      queue_cases (e ∷ q) p = clock_cases e q p

  -- The invariant of what the loop returns, if its fuel did not run out.
  abbrev pub Returned : Option (ℕ × Scheduler) → Type 0
  Returned none = Unit
  Returned (some (x, s)) = IsValid s

  loop-Inv :
      (react : Callbacks) (fuel x : ℕ) (s : Scheduler)
      → IsValid s
      → Returned (runq_loop os react fuel x s)
  unfolding runq_loop
  loop-Inv react zero x s v = tt
  loop-Inv react (suc fuel) x s v =
      turn_cases (take_turn os s) refl (turn-Inv s v)
        (λ e s' h. loop-Inv react fuel (x + 1) (launch os react e s') (launch-Inv react e s' h))
    where
      turn_cases :
          (t : Turn)
          → take_turn os s ≡ t
          → TurnInv t
          → ((e : Entry) (s' : Scheduler)
              → Inv (e ∷ []) s'
              → Returned (runq_loop os react fuel (x + 1) (launch os react e s')))
          → Returned (runq_loop os react (suc fuel) x s)
      turn_cases (idle s') p h rest = rw (p, runq_loop) h
      turn_cases (no_clock s') p h rest = rw (p, runq_loop) h
      turn_cases (later s') p h rest = rw (p, runq_loop) h
      turn_cases (due e s') p h rest = rw (p, runq_loop) (rest e s' h)

  -- Whatever the callbacks do with the queue, `cheops_sched_runq` keeps the invariant.
  pub runq-IsValid :
      (react : Callbacks) (fuel n : ℕ) (s s' : Scheduler)
      → IsValid s
      → sched_runq os react fuel s ≡ some (n, s')
      → IsValid s'
  unfolding sched_runq
  runq-IsValid react fuel n s s' v e = subst Returned e (loop-Inv react fuel 0 s v)
