-- ===== src/Sched/Time.antt =====
-- The times of sched.c: `struct timeval`, the macro SOONER and `sched_settime`.
use cheops_ng.Prelude.{Bool, ◌&&◌, ◌||◌, if◌then◌else◌, Option, none, some}
use cheops_ng.Prelude.Int.{ℤ, pos, ◌+ℤ◌, ◌-ℤ◌, scale, quot, rem, ltb_ℤ, eqb_ℤ}

pub record Timeval : Type 0 where
  pub sec : ℤ
  pub usec : ℤ

-- SOONER(a, b): `a` is strictly sooner than `b`, seconds first.
unfoldable pub sooner : Timeval → Timeval → Bool
sooner a b = ltb_ℤ a.sec b.sec || (eqb_ℤ b.sec a.sec && ltb_ℤ a.usec b.usec)

-- The carry at the end of `sched_settime`.
unfoldable pub carry : Timeval → Timeval
carry t =
    if ltb_ℤ (pos 1_000_000) t.usec
    then record { sec = t.sec +ℤ pos 1; usec = t.usec -ℤ pos 1_000_000 }
    else t

-- The time `ms` milliseconds after `now`.
unfoldable pub add_ms : Timeval → ℤ → Timeval
unfolding carry
add_ms now ms =
    carry (record { sec = now.sec +ℤ quot ms 1000; usec = now.usec +ℤ scale (rem ms 1000) 1000 })

-- `sched_settime`: the argument is what gettimeofday() returned, `none` if it failed.
unfoldable pub sched_settime : Option Timeval → ℤ → Option Timeval
unfolding add_ms
sched_settime none ms = none
sched_settime (some now) ms = some (add_ms now ms)
