-- ===== src/Sched/Order.antt =====
-- SOONER is a strict order whose incomparable times are equal ones, and `sched_settime` and
-- `cheops_sched_wait` compute the times that they mean to.
use cheops_ng.Prelude.{
  ℕ, ◌+◌, ◌*◌, ◌/◌, ◌%◌, ◌≡◌, true, false, Bool-cases, ◌⊎◌, inl, inr, ◌∙◌, arith,
}
use cheops_ng.Prelude.Int.{
  ℤ, pos, negsuc, pos_part, neg_part, ◌+ℤ◌, ◌-ℤ◌, ◌<ℤ◌, ◌≤ℤ◌, scale, quot, rem, +ℤ_parts, -ℤ_parts,
  eq_of_parts, one_part,
}
use cheops_ng.Sched.Time.{Timeval, sooner, carry, add_ms}

pub sooner_asymm : (a b : Timeval) → sooner a b ≡ true → sooner b a ≡ false
unfolding sooner
sooner_asymm a b h = ground arith

-- If neither `c` is sooner than `b` nor `b` than `a`, then `c` is not sooner than `a`.
pub not_sooner_trans :
    (a b c : Timeval) → sooner b a ≡ false → sooner c b ≡ false → sooner c a ≡ false
unfolding sooner
not_sooner_trans a b c h k = ground arith

-- If `a` is sooner than `b`, and `c` is not sooner than `b`, then `a` is sooner than `c`.
pub sooner_through : (a b c : Timeval) → sooner a b ≡ true → sooner c b ≡ false → sooner a c ≡ true
unfolding sooner
sooner_through a b c h k = ground arith

pub sooner_irrefl : (a : Timeval) → sooner a a ≡ false
unfolding sooner
sooner_irrefl a = ground arith

-- A time in microseconds.
abbrev pub micros : Timeval → ℤ
micros t = scale t.sec 1_000_000 +ℤ t.usec

pub scale_parts :
    (a : ℤ) (k : ℕ) → pos_part (scale a k) + neg_part a * k ≡ neg_part (scale a k) + pos_part a * k
unfolding scale
scale_parts a k = ground arith

pub quot_parts :
    (a : ℤ)
    → (pos_part (quot a 1000) ≡ pos_part a / 1000) × (neg_part (quot a 1000) ≡ neg_part a / 1000)
unfolding quot
quot_parts (pos n) = ground arith
quot_parts (negsuc n) = ground arith

pub rem_parts :
    (a : ℤ)
    → (pos_part (rem a 1000) ≡ pos_part a % 1000) × (neg_part (rem a 1000) ≡ neg_part a % 1000)
unfolding rem
rem_parts (pos n) = ground arith
rem_parts (negsuc n) = ground arith

pub ruleset time_laws =
    (arith, +ℤ_parts, -ℤ_parts, eq_of_parts, one_part, scale_parts, quot_parts, rem_parts)

micros_carried :
    (s u : ℤ)
    → micros (record { sec = s +ℤ pos 1; usec = u -ℤ pos 1_000_000 })
      ≡ micros (record { sec = s; usec = u })
micros_carried s u = omega time_laws

micros-carry : (t : Timeval) → micros (carry t) ≡ micros t
unfolding carry
micros-carry t = ground (arith, micros_carried t.sec t.usec)

micros_moved :
    (s u ms : ℤ)
    → micros (record { sec = s +ℤ quot ms 1000; usec = u +ℤ scale (rem ms 1000) 1000 })
      ≡ micros (record { sec = s; usec = u }) +ℤ scale ms 1000
micros_moved s u ms = omega time_laws

-- `sched_settime` adds exactly its milliseconds, whatever their sign, to the real time.
pub micros-add_ms : (now : Timeval) (ms : ℤ) → micros (add_ms now ms) ≡ micros now +ℤ scale ms 1000
unfolding add_ms
micros-add_ms now ms = micros-carry _ ∙ micros_moved now.sec now.usec ms

-- The microseconds of a queued time: 1000000 itself is possible, since the carry tests for more.
pub record InRange (t : Timeval) : Type 0 where
  pub low : pos 0 ≤ℤ t.usec
  pub high : t.usec ≤ℤ pos 1_000_000

-- A time that gettimeofday() returns.
pub record IsNormal (t : Timeval) : Type 0 where
  pub low : pos 0 ≤ℤ t.usec
  pub high : t.usec <ℤ pos 1_000_000

carry-InRange : (t : Timeval) → pos 0 ≤ℤ t.usec → t.usec ≤ℤ pos 1_999_999 → InRange (carry t)
unfolding carry ◌-ℤ◌
carry-InRange t h k = ground arith

-- A normal time moved by a number of milliseconds that is not negative stays in range.
pub add_ms-InRange : (now : Timeval) (ms : ℤ) → IsNormal now → pos 0 ≤ℤ ms → InRange (add_ms now ms)
unfolding add_ms
add_ms-InRange now ms n h =
    carry-InRange
      (record { sec = now.sec +ℤ quot ms 1000; usec = now.usec +ℤ scale (rem ms 1000) 1000 })
      (omega (time_laws, one_part ms)) (omega (time_laws, one_part ms))

pub sooner_cases :
    (a b : Timeval)
    → sooner a b ≡ true
    → (a.sec <ℤ b.sec)
      ⊎ ((pos_part a.sec + neg_part b.sec ≡ pos_part b.sec + neg_part a.sec) × (a.usec <ℤ b.usec))
unfolding sooner
sooner_cases a b h = ground arith

pub not_sooner_cases :
    (a b : Timeval)
    → sooner a b ≡ false
    → (b.sec <ℤ a.sec)
      ⊎ ((pos_part a.sec + neg_part b.sec ≡ pos_part b.sec + neg_part a.sec) × (b.usec ≤ℤ a.usec))
unfolding sooner
not_sooner_cases a b h = ground arith

-- What SOONER accepts is not later in real time.
pub sooner-le-micros :
    (a b : Timeval) → InRange a → InRange b → sooner a b ≡ true → micros a ≤ℤ micros b
sooner-le-micros a b ra rb h = omega (time_laws, sooner_cases a b h)

-- What is earlier in real time SOONER accepts.
pub micros-lt-sooner :
    (a b : Timeval) → InRange a → InRange b → micros a <ℤ micros b → sooner a b ≡ true
micros-lt-sooner a b ra rb h = elim (Bool-cases (sooner a b)) [
  | inl e ↦ e
  | inr e ↦ absurd (omega (time_laws, not_sooner_cases a b e))
]

micros_parts :
    (now : Timeval) (ms : ℤ)
    → pos_part (micros (add_ms now ms)) + neg_part (micros now +ℤ scale ms 1000)
      ≡ neg_part (micros (add_ms now ms)) + pos_part (micros now +ℤ scale ms 1000)
micros_parts now ms = rw (micros-add_ms now ms) (omega arith)

-- A longer delay from the same moment is strictly later.
pub add_ms_mono :
    (now : Timeval) (ms ms' : ℤ)
    → IsNormal now
    → pos 0 ≤ℤ ms
    → ms <ℤ ms'
    → sooner (add_ms now ms) (add_ms now ms') ≡ true
add_ms_mono now ms ms' n h k =
    micros-lt-sooner _ _ (add_ms-InRange now ms n h) (add_ms-InRange now ms' n (omega arith))
      (omega (time_laws, micros_parts now ms, micros_parts now ms'))
