-- ===== src/Sched/History.antt =====
-- Histories of calls of the scheduler, from the program's start.
use cheops_ng.Prelude.{
  ℕ, ◌≡◌, List, [], ◌∷◌, Option, none, some, inl, inr, Option-cases, subst, some_eq, arith,
}
use cheops_ng.Sched.Defs.{Scheduler, Os, initial, sched_wait}
use cheops_ng.Sched.Runq.{Call, Callbacks, do_call, sched_runq}
use cheops_ng.Sched.Invariant.{IsValid, initial-IsValid, wait-Inv}
use cheops_ng.Sched.Safety.{call-Inv, runq-IsValid}

-- One call from the program; `runq` carries the fuel of its loop.
pub data Op : Type 0 where
  call : Call → Op
  wait : Op
  runq : ℕ → Op

module _ (os : Os) (react : Callbacks) where
  unfoldable pub step : Op → Scheduler → Option Scheduler
  step (call c) s = some (do_call os c s)
  step wait s = some (sched_wait os s).1
  step (runq fuel) s = elim (sched_runq os react fuel s) [ none ↦ none | some (n, s') ↦ some s' ]

  unfoldable pub run : List Op → Scheduler → Option Scheduler
  run [] s = some s
  run (o ∷ os') s = elim (step o s) [ none ↦ none | some s' ↦ run os' s' ]

  step-IsValid : (o : Op) (s s' : Scheduler) → IsValid s → step o s ≡ some s' → IsValid s'
  unfolding step
  step-IsValid (call c) s s' v e = subst IsValid (some_eq e) (call-Inv os [] c s v)
  step-IsValid wait s s' v e = subst IsValid (some_eq e) (wait-Inv os [] s v)
  step-IsValid (runq fuel) s s' v e = elim (Option-cases (sched_runq os react fuel s)) [
    | inl k ↦ absurd (ground (arith, e))
    | inr ((n, s''), k) ↦ runq-IsValid os react fuel n s s' v (ground (arith, e))
  ]

  run-IsValid : (ops : List Op) (s s' : Scheduler) → IsValid s → run ops s ≡ some s' → IsValid s'
  unfolding run
  run-IsValid [] s s' v e = subst IsValid (some_eq e) v
  run-IsValid (o ∷ ops) s s' v e = elim (Option-cases (step o s)) [
    | inl k ↦ absurd (ground (arith, e))
    | inr (t, k) ↦ run-IsValid ops t s' (step-IsValid o s t v k) (ground (arith, e))
  ]

  -- In every state that calls of the scheduler reach from the start, with any callbacks, clock and
  -- malloc(), the queue is sorted, its ids are distinct and below the next id, both counters are
  -- the lengths that they stand for, and the cache holds at most 128 entries.
  pub reachable-IsValid : (ops : List Op) (s : Scheduler) → run ops initial ≡ some s → IsValid s
  reachable-IsValid ops s e = run-IsValid ops initial s initial-IsValid e
