-- ===== src/Sched/Tests.antt =====
-- The scheduler run on concrete inputs, and its theorems at them.
use cheops_ng.Prelude.{ℕ, zero, suc, ◌≤◌, ◌≡◌, refl, true, false, List, [], ◌∷◌, some, arith, All}
use cheops_ng.Prelude.Int.{pos, negsuc, ◌+ℤ◌, ◌-ℤ◌, scale, quot, rem, to_int}
use cheops_ng.Sched.Time.{Timeval, sooner, add_ms}
use cheops_ng.Sched.Defs.{
  Entry, Scheduler, Os, sched_add, sched_del, sched_wait, sched_alloc, add_entry, enqueue,
  read_clock, schedule, insert, ms_until,
}
use cheops_ng.Sched.Runq.{add, del, Callbacks, horizon, sched_runq, runq_loop, take_turn, do_call}
use cheops_ng.Sched.Invariant.{IsValid}
use cheops_ng.Sched.History.{Op, call, wait, runq, step, run, reachable-IsValid}
use cheops_ng.Sched.Liveness.{due_count, Delays}
use cheops_ng.Sched.Termination.{runq_drains}
use cheops_ng.Sched.Contract.{del-add}
use cheops_ng.Sched.Wait.{IsNear}

abbrev at : ℕ → ℕ → Timeval
at s u = record { sec = pos s; usec = pos u }

-- A clock that stands still, and a malloc() that never fails.
abbrev still : Os
still = record { gettimeofday = λ n. some (at 100 500_000); malloc = λ n. true }

-- Callback 1 queues another event and asks to be run again; the others do nothing and end.
abbrev callbacks : Callbacks
callbacks zero arg s = record { calls = []; again = false }
callbacks (suc zero) arg s = record { calls = add (pos 5) 0 arg ∷ []; again = true }
callbacks (suc (suc n)) arg s = record { calls = []; again = false }

abbrev entry : ℕ → ℕ → ℕ → ℕ → Entry
entry i s u callback = record {
  id = i;
  when = at s u;
  resched = pos 20;
  arg = 7;
  callback = callback;
}

-- Two entries are due, one is not; one more was allocated and is cached.
abbrev busy : Scheduler
busy = record {
  eventcnt = 4;
  schedcnt = 3;
  schedq = entry 2 90 0 1 ∷ entry 1 100 500_100 0 ∷ entry 3 101 0 0 ∷ [];
  schedc = entry 0 0 0 0 ∷ [];
  schedccnt = 1;
  allocated = 4;
  clock_reads = 0;
  mallocs = 4;
}

busy-IsValid : IsValid busy
unfolding sooner
busy-IsValid = record {
  counted = refl;
  cached = refl;
  bounded = omega arith;
  sorted = ((refl, (refl, tt)), ((refl, tt), (tt, tt)));
  distinct = omega arith;
  fresh = omega arith;
  held_distinct = tt;
  held_fresh = tt;
  apart = tt;
  owned = omega arith;
}

adds_in_order : (sched_add still (pos 1500) 2 7 busy).0 ≡ pos 4
unfolding sched_add sched_alloc add_entry enqueue read_clock schedule insert sooner
adds_in_order = refl

refuses_zero : sched_add still (pos 0) 2 7 busy ≡ (negsuc 0, busy)
unfolding sched_add
refuses_zero = refl

-- The carry tests for more than a million: 500000 and 500 ms make an unnormalised time.
unnormalised : add_ms (at 100 500_000) (pos 500) ≡ at 100 1_000_000
unfolding add_ms ◌+ℤ◌ ◌-ℤ◌ scale quot rem
unnormalised = refl

waits : (sched_wait still busy).0 ≡ pos 0
unfolding sched_wait ms_until ◌+ℤ◌ ◌-ℤ◌ scale quot to_int
waits = refl

abbrev history : List Op
history = call (add (pos 10) 1 7) ∷ call (add (pos 5) 0 7) ∷ wait ∷ call (del 1) ∷ runq 9 ∷ []

abbrev after_history : Scheduler
after_history = record {
  eventcnt = 3;
  schedcnt = 1;
  schedq = record { id = 2; when = at 100 505_000; resched = pos 5; arg = 7; callback = 0 } ∷ [];
  schedc = [];
  schedccnt = 0;
  allocated = 2;
  clock_reads = 4;
  mallocs = 2;
}

reachable-IsValid_example : IsValid after_history
unfolding run step do_call sched_add sched_alloc add_entry enqueue read_clock schedule insert sooner
    sched_del sched_wait ms_until sched_runq runq_loop take_turn horizon ◌+ℤ◌ ◌-ℤ◌ scale quot rem
    to_int
reachable-IsValid_example = reachable-IsValid still callbacks history after_history refl

delays : (callback arg : ℕ) (s : Scheduler) → All Delays (callbacks callback arg s).calls
delays zero arg s = tt
delays (suc zero) arg s = (omega arith, tt)
delays (suc (suc n)) arg s = tt

due_count-busy : due_count (horizon (at 100 500_000)) busy.schedq ≡ 2
unfolding horizon sooner ◌+ℤ◌
due_count-busy = refl

runq_drains_example :
    (n : ℕ) × (s' : Scheduler) × (sched_runq still callbacks 3 busy ≡ some (n, s'))
    × (n ≤ due_count (horizon (at 100 500_000)) busy.schedq)
    × (due_count (horizon (at 100 500_000)) s'.schedq ≡ 0)
runq_drains_example =
    runq_drains still (at 100 500_000) (λ n. refl) callbacks delays 3 busy busy-IsValid
      (omega arith) (rw due_count-busy (omega arith))

del-add_example :
    let s' = (sched_add still (pos 1500) 2 7 busy).1 in
    let (res, s'') = sched_del 4 s' in
    (res ≡ pos 0) × (s''.schedq ≡ busy.schedq) × (sched_del 4 s'' ≡ (negsuc 0, s''))
del-add_example = del-add still (pos 1500) 2 7 busy 4 busy-IsValid adds_in_order

IsNear-soon : IsNear (at 100 500_900) (at 100 500_000)
unfolding ◌-ℤ◌
IsNear-soon = omega arith
