-- ===== src/Sched/Liveness.antt =====
-- `cheops_sched_runq` ends, and has then launched all that was due.
use cheops_ng.Prelude.{
  ℕ, suc, ◌+◌, ◌≤◌, ◌≡◌, Bool, true, false, Bool-cases, inl, inr, List, [], ◌∷◌, ◌++◌, some, ap,
  subst, arith, All, if◌then◌else◌,
}
use cheops_ng.Prelude.Int.{ℤ, pos, eqb_ℤ, ◌<ℤ◌, ◌+ℤ◌, ◌-ℤ◌, one_part, quot, rem, scale}
use cheops_ng.Sched.Time.{Timeval, sooner, add_ms, sched_settime}
use cheops_ng.Sched.Order.{time_laws, sooner_cases}
use cheops_ng.Sched.Defs.{
  Entry, Scheduler, Os, new_entry, insert, schedule, sched_del, sched_alloc, read_clock, enqueue,
  add_entry, sched_add,
}
use cheops_ng.Sched.Runq.{Call, add, del, horizon, do_call, do_calls}
use cheops_ng.Sched.Queue.{All-insert, unlink_id-Unlinked}
use cheops_ng.Sched.Removal.{All-drop_middle}

-- How many entries of a queue are due before `t`.
abbrev pub due_count : Timeval → List Entry → ℕ
due_count t [] = 0
due_count t (e ∷ q) = if sooner e.when t then suc (due_count t q) else due_count t q

abbrev pub IsPositive : ℤ → Type 0
IsPositive ms = pos 0 <ℤ ms

plain_not_due :
    (now : Timeval) (ms : ℤ)
    → IsPositive ms
    → sooner
        (record { sec = now.sec +ℤ quot ms 1000; usec = now.usec +ℤ scale (rem ms 1000) 1000 })
        (horizon now)
      ≡ false
unfolding horizon
plain_not_due now ms h =
    elim (Bool-cases (
      sooner (record { sec = now.sec +ℤ quot ms 1000; usec = now.usec +ℤ scale (rem ms 1000) 1000 })
        (horizon now))) [
          | inl e ↦ absurd (omega (time_laws, one_part ms, sooner_cases _ _ e))
          | inr e ↦ e
        ]

carried_not_due :
    (now : Timeval) (ms u : ℤ)
    → IsPositive ms
    → sooner (record { sec = now.sec +ℤ quot ms 1000 +ℤ pos 1; usec = u }) (horizon now) ≡ false
unfolding horizon
carried_not_due now ms u h =
    elim (Bool-cases
      (sooner (record { sec = now.sec +ℤ quot ms 1000 +ℤ pos 1; usec = u }) (horizon now))) [
        | inl e ↦ absurd (omega (time_laws, one_part ms, sooner_cases _ _ e))
        | inr e ↦ e
      ]

-- A time set at least one millisecond ahead is not within the tolerance of the loop.
pub add_ms_not_due :
    (now : Timeval) (ms : ℤ) → IsPositive ms → sooner (add_ms now ms) (horizon now) ≡ false
unfolding add_ms
add_ms_not_due now ms h = ground (
  arith,
  plain_not_due now ms h,
  carried_not_due now ms (now.usec +ℤ scale (rem ms 1000) 1000 -ℤ pos 1_000_000) h,
)

due_count-insert :
    (t : Timeval) (e : Entry) (q : List Entry)
    → sooner e.when t ≡ false
    → due_count t (insert e q) ≡ due_count t q
unfolding insert
due_count-insert t e [] h = ground arith
due_count-insert t e (x ∷ q) h = ground (arith, due_count-insert t e q h)

due_count-drop_middle :
    (t : Timeval) (before : List Entry) (e : Entry) (after : List Entry)
    → due_count t (before ++ after) ≤ due_count t (before ++ (e ∷ after))
due_count-drop_middle t [] e after = ground arith
due_count-drop_middle t (x ∷ before) e after =
    ground (arith, due_count-drop_middle t before e after)

abbrev pub IsPatient : List Entry → Type 0
IsPatient q = All (λ e. IsPositive e.resched) q

-- The call asks for a delay of a millisecond at least.
abbrev pub Delays : Call → Type 0
Delays (add when callback arg) = IsPositive when
Delays (del id) = Unit

-- A call of the scheduler makes nothing due, and queues patient entries only.
abbrev pub Settles : Timeval → Scheduler → Scheduler → Type 0
Settles t s s' = (due_count t s'.schedq ≤ due_count t s.schedq) × IsPatient s'.schedq

pub Settles-trans :
    (t : Timeval) (a b c : Scheduler) → Settles t a b → Settles t b c → Settles t a c
Settles-trans t a b c h k = (omega arith, k.1)

del-Settles :
    (t : Timeval) (id : ℕ) (s : Scheduler) → IsPatient s.schedq → Settles t s (sched_del id s).1
unfolding sched_del
del-Settles t id s p = elim (unlink_id-Unlinked id s.schedq) [
  | inl (gone, e) ↦ rw (e, sched_del) (omega arith, p)
  | inr (before, e, after, at) ↦
      let moved : due_count t (before ++ after) ≤ due_count t s.schedq =
        rw at.parts (due_count-drop_middle t before e after) in
      rw (at.result, sched_del)
        (moved, All-drop_middle _ before e after (subst IsPatient at.parts p))
]

-- The clock shows one time throughout.
module _ (os : Os) (now : Timeval) (frozen : (n : ℕ) → os.gettimeofday n ≡ some now) where
  pub enqueue-Settles :
      (e : Entry) (s : Scheduler)
      → IsPositive e.resched
      → IsPatient s.schedq
      → Settles (horizon now) s (enqueue os e s).1
  unfolding enqueue read_clock sched_settime schedule
  enqueue-Settles e s h p =
      let e' : Entry = record e { when = add_ms now e.resched } in
      rw (frozen s.clock_reads) (
        omega (arith, due_count-insert (horizon now) e' s.schedq (add_ms_not_due now e.resched h)),
        All-insert _ e' s.schedq h p,
      )

  alloc-schedq : (s : Scheduler) → (sched_alloc os s).1.schedq ≡ s.schedq
  unfolding sched_alloc
  alloc-schedq s = ground arith

  add_entry-Settles :
      (when : ℤ) (callback arg : ℕ) (got : Bool) (s : Scheduler)
      → IsPositive when
      → IsPatient s.schedq
      → Settles (horizon now) s (add_entry os when callback arg (got, s)).1
  unfolding add_entry
  add_entry-Settles when callback arg false s h p = (omega arith, p)
  add_entry-Settles when callback arg true s h p =
      enqueue-Settles (new_entry when callback arg s.eventcnt)
        (record s { eventcnt = s.eventcnt + 1 }) h p

  add-Settles :
      (when : ℤ) (callback arg : ℕ) (s : Scheduler)
      → IsPositive when
      → IsPatient s.schedq
      → Settles (horizon now) s (sched_add os when callback arg s).1
  unfolding sched_add
  add-Settles when callback arg s h p = elim (Bool-cases (eqb_ℤ when (pos 0))) [
    | inl k ↦ rw (k, sched_add) (omega arith, p)
    | inr k ↦
        let (got, s') = sched_alloc os s in
        let r = add_entry-Settles when callback arg got s' h (rw (alloc-schedq s) p) in
        rw (k, sched_add) (omega (arith, r.0, ap (due_count (horizon now)) (alloc-schedq s)), r.1)
  ]

  call-Settles :
      (c : Call) (s : Scheduler)
      → Delays c
      → IsPatient s.schedq
      → Settles (horizon now) s (do_call os c s)
  unfolding do_call
  call-Settles (add when callback arg) s h p = add-Settles when callback arg s h p
  call-Settles (del id) s h p = del-Settles (horizon now) id s p

  pub calls-Settles :
      (cs : List Call) (s : Scheduler)
      → All Delays cs
      → IsPatient s.schedq
      → Settles (horizon now) s (do_calls os cs s)
  unfolding do_calls
  calls-Settles [] s h p = (omega arith, p)
  calls-Settles (c ∷ cs) s h p =
      let a = call-Settles c s h.0 p in
      Settles-trans (horizon now) s (do_call os c s) (do_calls os cs (do_call os c s)) a
        (calls-Settles cs (do_call os c s) h.1 a.1)
