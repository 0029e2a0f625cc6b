-- ===== src/Sched/Wait.antt =====
-- `cheops_sched_wait` against `cheops_sched_runq`: how long to sleep, and what is then due.
use cheops_ng.Prelude.{◌≤◌, ◌≡◌, ◌↔◌, true, false, Bool-cases, inl, inr, ◌∙◌, arith, if◌then◌else◌}
use cheops_ng.Prelude.Int.{
  ℤ, pos, ltb_ℤ, pos_part, neg_part, ◌+ℤ◌, ◌-ℤ◌, ◌<ℤ◌, ◌≤ℤ◌, scale, quot, to_int, to_int_in_range,
  one_part,
}
use cheops_ng.Sched.Time.{Timeval, sooner}
use cheops_ng.Sched.Order.{time_laws, IsNormal, InRange, micros, sooner_cases, not_sooner_cases}
use cheops_ng.Sched.Defs.{ms_until}
use cheops_ng.Sched.Runq.{horizon}

-- The two times are less than 23 days apart, so that the milliseconds fit an `int`.
pub record IsNear (w now : Timeval) : Type 0 where
  pub ahead : pos_part (w.sec -ℤ now.sec) ≤ 2_000_000
  pub behind : neg_part (w.sec -ℤ now.sec) ≤ 2_000_000

-- The difference that the code computes, before it is cut off at 0.
abbrev difference : Timeval → Timeval → ℤ
difference w now = scale (w.sec -ℤ now.sec) 1000 +ℤ quot (w.usec -ℤ now.usec) 1000

pub seconds_fit :
    (w now : Timeval)
    → IsNear w now
    → to_int (scale (w.sec -ℤ now.sec) 1000) ≡ scale (w.sec -ℤ now.sec) 1000
seconds_fit w now n =
    to_int_in_range (scale (w.sec -ℤ now.sec) 1000)
      (omega (
        time_laws,
        one_part (w.sec -ℤ now.sec),
        one_part (w.usec -ℤ now.usec),
        one_part (scale (w.sec -ℤ now.sec) 1000),
      ))
      (omega (
        time_laws,
        one_part (w.sec -ℤ now.sec),
        one_part (w.usec -ℤ now.usec),
        one_part (scale (w.sec -ℤ now.sec) 1000),
      ))

pub ms_fit :
    (w now : Timeval)
    → IsNear w now
    → InRange w
    → IsNormal now
    → to_int (difference w now) ≡ difference w now
ms_fit w now n r m =
    to_int_in_range (difference w now)
      (omega (
        time_laws,
        one_part (w.sec -ℤ now.sec),
        one_part (w.usec -ℤ now.usec),
        one_part (scale (w.sec -ℤ now.sec) 1000),
      ))
      (omega (
        time_laws,
        one_part (w.sec -ℤ now.sec),
        one_part (w.usec -ℤ now.usec),
        one_part (scale (w.sec -ℤ now.sec) 1000),
      ))

pub ms_until_exact :
    (w now : Timeval)
    → IsNear w now
    → InRange w
    → IsNormal now
    → ms_until w now ≡ (if ltb_ℤ (difference w now) (pos 0) then pos 0 else difference w now)
unfolding ms_until
ms_until_exact w now n r m = rw (seconds_fit w now n, ms_fit w now n r m)

difference-due :
    (w now : Timeval)
    → InRange w
    → IsNormal now
    → sooner w (horizon now) ≡ true
    → difference w now ≤ℤ pos 0
unfolding horizon
difference-due w now r m h = omega (
  time_laws,
  sooner_cases w (horizon now) h,
  one_part (w.sec -ℤ now.sec),
  one_part (w.usec -ℤ now.usec),
)

difference-not_due :
    (w now : Timeval)
    → InRange w
    → IsNormal now
    → sooner w (horizon now) ≡ false
    → pos 0 <ℤ difference w now
unfolding horizon
difference-not_due w now r m h = omega (
  time_laws,
  not_sooner_cases w (horizon now) h,
  one_part (w.sec -ℤ now.sec),
  one_part (w.usec -ℤ now.usec),
)

-- `cheops_sched_wait` computes 0 exactly for the times that `cheops_sched_runq`, at the same
-- moment, takes for due. So a loop that sleeps for that long and then runs the queue neither spins
-- on an entry that is not due nor sleeps on one that is.
pub wait_zero_iff_due :
    (w now : Timeval)
    → IsNear w now
    → InRange w
    → IsNormal now
    → (ms_until w now ≡ pos 0) ↔ (sooner w (horizon now) ≡ true)
wait_zero_iff_due w now n r m = elim (Bool-cases (sooner w (horizon now))) [
  | inl h ↦
      ((λ _. h), (λ _. ms_until_exact w now n r m ∙ ground (arith, difference-due w now r m h)))
  | inr h ↦ (
    (λ e. absurd (ground (arith, ms_until_exact w now n r m, difference-not_due w now r m h))),
    (λ e. absurd (ground (arith, h))),
  )
]

abbrev IsAccurate : ℤ → ℤ → Type 0
IsAccurate ms d = (scale ms 1000 <ℤ d +ℤ pos 1000) × (d <ℤ scale ms 1000 +ℤ pos 1000)

difference_accuracy : (w now : Timeval) → IsAccurate (difference w now) (micros w -ℤ micros now)
difference_accuracy w now =
    omega (time_laws, one_part (w.sec -ℤ now.sec), one_part (w.usec -ℤ now.usec))

difference_nonneg : (w now : Timeval) → micros now ≤ℤ micros w → pos 0 ≤ℤ difference w now
difference_nonneg w now h =
    omega (time_laws, one_part (w.sec -ℤ now.sec), one_part (w.usec -ℤ now.usec))

-- For a time that is not over, `cheops_sched_wait` is less than a millisecond off in either
-- direction: 1000 times its result differs from the distance in microseconds by less than 1000.
pub wait_accuracy :
    (w now : Timeval)
    → IsNear w now
    → InRange w
    → IsNormal now
    → micros now ≤ℤ micros w
    → (scale (ms_until w now) 1000 <ℤ micros w -ℤ micros now +ℤ pos 1000)
      × (micros w -ℤ micros now <ℤ scale (ms_until w now) 1000 +ℤ pos 1000)
wait_accuracy w now n r m h =
    let exact : ms_until w now ≡ difference w now =
      ms_until_exact w now n r m ∙ ground (arith, difference_nonneg w now h) in
    rw exact (difference_accuracy w now)
