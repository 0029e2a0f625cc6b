-- ===== src/Sched/Termination.antt =====
-- The loop of `cheops_sched_runq` ends while the clock stands still, and leaves nothing due.
use cheops_ng.Prelude.{
  ℕ, zero, suc, ◌+◌, ◌≤◌, ◌<◌, ◌≡◌, refl, false, Bool-cases, inl, inr, List, [], ◌∷◌, Option, some,
  ap, ◌∙◌, subst, arith, All,
}
use cheops_ng.Sched.Time.{Timeval, sooner}
use cheops_ng.Sched.Order.{not_sooner_trans}
use cheops_ng.Sched.Defs.{Entry, Scheduler, Os, sched_release, read_clock, enqueue}
use cheops_ng.Sched.Runq.{
  Callbacks, Turn, idle, no_clock, later, due, horizon, do_calls, take_turn, launch, runq_loop,
  sched_runq,
}
use cheops_ng.Sched.Queue.{IsSorted}
use cheops_ng.Sched.Invariant.{IsValid}
use cheops_ng.Sched.Safety.{TurnInv, turn-Inv, launch-Inv}
use cheops_ng.Sched.Liveness.{
  due_count, IsPositive, IsPatient, Delays, Settles, Settles-trans, enqueue-Settles, calls-Settles,
}

release-schedq : (e : Entry) (s : Scheduler) → (sched_release e s).schedq ≡ s.schedq
unfolding sched_release
release-schedq e s = ground arith

release-Settles :
    (t : Timeval) (e : Entry) (s : Scheduler) → IsPatient s.schedq → Settles t s (sched_release e s)
release-Settles t e s p =
    (omega (arith, ap (due_count t) (release-schedq e s)), rw (release-schedq e s) p)

-- If the head of a sorted queue is not due, nothing is.
due_count-none :
    (t : Timeval) (q : List Entry) → All (λ e. sooner e.when t ≡ false) q → due_count t q ≡ 0
due_count-none t [] h = refl
due_count-none t (e ∷ q) h = ground (arith, due_count-none t q)

none_due :
    (t u : Timeval) (q : List Entry)
    → sooner u t ≡ false
    → All (λ e. sooner e.when u ≡ false) q
    → All (λ e. sooner e.when t ≡ false) q
none_due t u [] k h = tt
none_due t u (e ∷ q) k h = (not_sooner_trans t u e.when k h.0, none_due t u q k h.1)

sorted_none_due :
    (t : Timeval) (e : Entry) (q : List Entry)
    → IsSorted (e ∷ q)
    → sooner e.when t ≡ false
    → due_count t (e ∷ q) ≡ 0
sorted_none_due t e q h k = due_count-none t (e ∷ q) (k, none_due t e.when q k h.0)

module _ (os : Os) (now : Timeval) (frozen : (n : ℕ) → os.gettimeofday n ≡ some now) where
  -- With a clock that works, a turn finds nothing due, or takes one entry of those that are.
  abbrev TurnDue : Scheduler → Turn → Type 0
  TurnDue s (idle s') = due_count (horizon now) s'.schedq ≡ 0
  TurnDue s (no_clock s') = ⊥
  TurnDue s (later s') = due_count (horizon now) s'.schedq ≡ 0
  TurnDue s (due e s') =
      (due_count (horizon now) s.schedq ≡ suc (due_count (horizon now) s'.schedq))
      × IsPositive e.resched
      × IsPatient s'.schedq

  turn-TurnDue :
      (s : Scheduler) → IsSorted s.schedq → IsPatient s.schedq → TurnDue s (take_turn os s)
  unfolding take_turn read_clock
  turn-TurnDue s o p = queue_cases s.schedq refl
    where
      queue_cases : (q : List Entry) → s.schedq ≡ q → TurnDue s (take_turn os s)
      queue_cases [] e = rw (e, take_turn) (ap (due_count (horizon now)) e)
      queue_cases (x ∷ q) e = elim (Bool-cases (sooner x.when (horizon now))) [
        | inl h ↦
            rw (e, take_turn, frozen s.clock_reads, h)
              (rw h refl, (subst IsPatient e p).0, (subst IsPatient e p).1)
        | inr h ↦
            rw (e, take_turn, frozen s.clock_reads, h)
              (ap (due_count (horizon now)) e
                ∙ sorted_none_due (horizon now) x q (subst IsSorted e o) h)
      ]

  module _ (react : Callbacks)
      (delays : (callback arg : ℕ) (s : Scheduler) → All Delays (react callback arg s).calls) where
    launch-Settles :
        (e : Entry) (s : Scheduler)
        → IsPositive e.resched
        → IsPatient s.schedq
        → Settles (horizon now) s (launch os react e s)
    unfolding launch
    launch-Settles e s h p =
        let t = horizon now in
        let s' = do_calls os (react e.callback e.arg s).calls s in
        let a =
          calls-Settles os now frozen (react e.callback e.arg s).calls s (delays e.callback e.arg s)
            p in
        elim (Bool-cases (react e.callback e.arg s).again) [
          | inl k ↦ rw k (
              Settles-trans t s s' (enqueue os e s').1 a (enqueue-Settles os now frozen e s' h a.1))
          | inr k ↦ rw k (Settles-trans t s s' (sched_release e s') a (release-Settles t e s' a.1))
        ]

    -- The loop returned, launched no more entries than were due, and left none due.
    abbrev pub Drains : Scheduler → ℕ → Option (ℕ × Scheduler) → Type 0
    Drains s x r =
        (n : ℕ) × (s' : Scheduler) × (r ≡ some (n, s'))
        × (n ≤ x + due_count (horizon now) s.schedq)
        × (due_count (horizon now) s'.schedq ≡ 0)

    loop-Drains :
        (fuel x : ℕ) (s : Scheduler)
        → IsValid s
        → IsPatient s.schedq
        → due_count (horizon now) s.schedq < fuel
        → Drains s x (runq_loop os react fuel x s)
    unfolding runq_loop
    loop-Drains zero x s v p h = absurd (omega arith)
    loop-Drains (suc fuel) x s v p h =
        turn_cases (take_turn os s) refl (turn-TurnDue s v.sorted p) (turn-Inv os s v)
          (λ e s'. loop-Drains fuel (x + 1) (launch os react e s'))
      where
        turn_cases :
            (t : Turn)
            → take_turn os s ≡ t
            → TurnDue s t
            → TurnInv os t
            → ((e : Entry) (s' : Scheduler)
                → IsValid (launch os react e s')
                → IsPatient (launch os react e s').schedq
                → due_count (horizon now) (launch os react e s').schedq < fuel
                → Drains
                    (launch os react e s')
                    (x + 1)
                    (runq_loop os react fuel (x + 1) (launch os react e s')))
            → Drains s x (runq_loop os react (suc fuel) x s)
        turn_cases (idle s') k d w rest = rw (k, runq_loop) (x, s', refl, omega arith, d)
        turn_cases (no_clock s') k d w rest = absurd d
        turn_cases (later s') k d w rest = rw (k, runq_loop) (x, s', refl, omega arith, d)
        turn_cases (due e s') k d w rest =
            let a = launch-Settles e s' d.1 d.2 in
            let (n, s'', r, few, none_left) =
              rest e s' (launch-Inv os react e s' w) a.1 (omega arith) in
            rw (k, runq_loop) (n, s'', r, omega (arith, few, a.0), none_left)

    -- While the clock stands still, and the callbacks and the queued entries ask for delays of at
    -- least a millisecond, `cheops_sched_runq` returns within as many turns as entries are due
    -- and one more, has launched at most those, and leaves no entry due.
    pub runq_drains :
        (fuel : ℕ) (s : Scheduler)
        → IsValid s
        → IsPatient s.schedq
        → due_count (horizon now) s.schedq < fuel
        → (n : ℕ) × (s' : Scheduler) × (sched_runq os react fuel s ≡ some (n, s'))
          × (n ≤ due_count (horizon now) s.schedq)
          × (due_count (horizon now) s'.schedq ≡ 0)
    unfolding sched_runq
    runq_drains fuel s v p h =
        let (n, s', r, few, none_left) = loop-Drains fuel 0 s v p h in
        (n, s', r, omega (arith, few), none_left)
