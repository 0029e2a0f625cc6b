-- ===== src/Sched/Runq.antt =====
-- `cheops_sched_runq`, and what a callback may do to the scheduler while it runs.
use cheops_ng.Prelude.{
  ℕ, zero, suc, ◌+◌, ◌-◌, Bool, List, [], ◌∷◌, Option, none, some, if◌then◌else◌,
}
use cheops_ng.Prelude.Int.{ℤ, pos, ◌+ℤ◌}
use cheops_ng.Sched.Time.{Timeval, sooner}
use cheops_ng.Sched.Defs.{
  Entry, Scheduler, Os, sched_release, sched_del, read_clock, enqueue, sched_add,
}

-- A callback reaches the queue through these two calls only.
pub data Call : Type 0 where
  add : ℤ → ℕ → ℕ → Call
  del : ℕ → Call

-- What a callback does: its calls in order, and whether it returns non-zero to be run again.
pub record Reaction : Type 0 where
  pub calls : List Call
  pub again : Bool

-- The callbacks of the program: the reaction of a callback to its argument, which may depend on
-- the state of the scheduler.
abbrev pub Callbacks : Type 0
Callbacks = ℕ → ℕ → Scheduler → Reaction

-- The head of the queue at a turn of the loop: none left, no time to be had, not due yet, or due.
pub data Turn : Type 0 where
  idle : Scheduler → Turn
  no_clock : Scheduler → Turn
  later : Scheduler → Turn
  due : Entry → Scheduler → Turn

-- The tolerance of one millisecond that the loop adds to the time.
unfoldable pub horizon : Timeval → Timeval
horizon tv = record tv { usec = tv.usec +ℤ pos 1000 }

module _ (os : Os) where
  unfoldable pub do_call : Call → Scheduler → Scheduler
  do_call (add when callback arg) s = (sched_add os when callback arg s).1
  do_call (del id) s = (sched_del id s).1

  unfoldable pub do_calls : List Call → Scheduler → Scheduler
  do_calls [] s = s
  do_calls (c ∷ cs) s = do_calls cs (do_call c s)

  -- A turn reads the clock and takes a due entry off the queue.
  unfoldable pub take_turn : Scheduler → Turn
  unfolding read_clock horizon
  take_turn s = elim s.schedq [
    | [] ↦ idle s
    | e ∷ q ↦
        let (now, s') = read_clock os s in
        elim now [
          | none ↦ no_clock s'
          | some tv ↦
              if sooner e.when (horizon tv)
              then due e (record s' { schedq = q; schedcnt = s'.schedcnt - 1 })
              else later s'
        ]
  ]

  -- The callback runs while its entry is off the queue; the entry is then put back or released.
  unfoldable pub launch : Callbacks → Entry → Scheduler → Scheduler
  unfolding do_calls enqueue sched_release
  launch react e s =
      let r = react e.callback e.arg s in
      let s' = do_calls r.calls s in if r.again then (enqueue os e s').1 else sched_release e s'

  -- The loop, with fuel for its turns (`none` if the fuel runs out) and `x` entries launched.
  unfoldable pub runq_loop : Callbacks → ℕ → ℕ → Scheduler → Option (ℕ × Scheduler)
  unfolding take_turn launch
  runq_loop react zero x s = none
  runq_loop react (suc fuel) x s = elim (take_turn s) [
    | idle s' ↦ some (x, s')
    | no_clock s' ↦ some (0, s')
    | later s' ↦ some (x, s')
    | due e s' ↦ runq_loop react fuel (x + 1) (launch react e s')
  ]

  unfoldable pub sched_runq : Callbacks → ℕ → Scheduler → Option (ℕ × Scheduler)
  unfolding runq_loop
  sched_runq react fuel s = runq_loop react fuel 0 s
