-- ===== src/Discover/Ends.antt =====
-- `ping_send` ends, and what it leaves behind.
use cheops_ng.Prelude.{
  ℕ, zero, suc, ◌+◌, ◌-◌, ◌%◌, ◌^◌, ◌≤◌, ◌<◌, ◌≡◌, refl, Bool, true, false, Bool-cases, ◌⊎◌, inl,
  inr, some, ltb, ◌==◌, arith, ap, subst, ◌∙◌, sym,
}
use cheops_ng.Prelude.Int.{pos}
use cheops_ng.Prelude.Bytes.{ntohl}
use cheops_ng.Sched.Defs.{Scheduler, Os, sched_add, read_clock}
use cheops_ng.Discover.Defs.{
  Ping, Discovery, Net, ping_send_callback, remove_ping, remove_ping_q, write_back, find_ping,
}
use cheops_ng.Discover.Send.{
  Turn, again, leave, expired, exit, turn, Loop, left, over, exited, no_fuel, send_loop, last_delay,
  now_ms, schedule_ping, reschedule, ping_timeout_interval, ping_interval, Result, done, exit,
  no_fuel, dangling, ping_send,
}
use cheops_ng.Discover.Range.{IsPing, remaining}
use cheops_ng.Discover.Loop.{
  Grown, IsOf, IsTarget, IsCachedReply, NoSocket, Progress, Progress-refl, Progress-trans, TurnPost,
  turn-TurnPost,
}
use cheops_ng.Discover.Queue.{IsValid, find_ping-found, written-IsValid, removed-IsValid}

-- How the loop of the discovery `o` ends.
abbrev pub LoopPost : Net → Ping → Discovery → Loop → Type 0
LoopPost net o s (left p' s') = IsOf o p' × IsPing p' × Progress o s s'
LoopPost net o s (over s') = (t : Discovery) × Progress o s t × (s' ≡ remove_ping_q o.address t)
LoopPost net o s exited = NoSocket net s
LoopPost net o s no_fuel = ⊥

module _ (o : Ping) (net : Net) where
  LoopPost-trans :
      (s t : Discovery) (l : Loop) → Progress o s t → LoopPost net o t l → LoopPost net o s l
  LoopPost-trans s t (left p u) a (h, v, b) = (h, v, Progress-trans o s t u a b)
  LoopPost-trans s t (over u) a (w, b, e) = (w, Progress-trans o s t w a b, e)
  LoopPost-trans s t exited a b = (a.closed b.0, b.1)
  LoopPost-trans s t no_fuel a b = b

  pub send_loop-LoopPost :
      (fuel failures : ℕ) (p : Ping) (s : Discovery)
      → IsOf o p
      → IsPing p
      → s.ping_retries + 1 < 2 ^ 32
      → remaining s.ping_retries p + (4 - failures) < fuel
      → LoopPost net o s (send_loop net fuel failures p s)
  unfolding send_loop
  send_loop-LoopPost zero failures p s h v small enough = absurd (omega arith)
  send_loop-LoopPost (suc fuel) failures p s h v small enough =
      after (turn net failures p s) refl (turn-TurnPost o net failures p s h v small)
        (λ failures' p' s'. send_loop-LoopPost fuel failures' p' s')
    where
      after :
          (t : Turn)
          → turn net failures p s ≡ t
          → TurnPost o net failures p s t
          → ((failures' : ℕ) (p' : Ping) (s' : Discovery)
              → IsOf o p'
              → IsPing p'
              → s'.ping_retries + 1 < 2 ^ 32
              → remaining s'.ping_retries p' + (4 - failures') < fuel
              → LoopPost net o s' (send_loop net fuel failures' p' s'))
          → LoopPost net o s (send_loop net (suc fuel) failures p s)
      after (again p' f' s') e (h', v', a, less) rest =
          rw (e, send_loop)
            (LoopPost-trans s s' (send_loop net fuel f' p' s') a (
              rest f' p' s' h' v' (omega (arith, a.ping_retries, small)) (
                subst (λ r. remaining r p' + (4 - f') < fuel) (sym a.ping_retries)
                  (omega (arith, less, enough)))))
      after (leave p' s') e post rest = rw (e, send_loop) post
      after (expired s') e post rest = rw (e, send_loop) (s, Progress-refl o s, post)
      after exit e post rest = rw (e, send_loop) post

-- Behind the loop the entry is to run again at its old delay, or it was handed to the scheduler anew,
-- after at most PING_TIMEOUT_INTERVAL.
abbrev Rescheduled : Os → Ping → Discovery → Bool × Discovery → Type 0
Rescheduled os p s r =
    (r ≡ (true, record s { ping_q = write_back p s.ping_q }))
    ⊎ ((p' : Ping) × (ms : ℕ) × (t : Scheduler) × IsOf p p'
        × (p'.current ≡ p.current)
        × (ms ≤ ping_timeout_interval)
        × (t.schedq ≡ s.scheduler.schedq)
        × (r ≡ (false, schedule_ping os ms p' s t)))

last_delay_bound : (time ms : ℕ) → last_delay time ms ≤ ping_timeout_interval
unfolding last_delay
last_delay_bound time ms = ground arith

pub reschedule-Rescheduled :
    (os : Os) (p : Ping) (s : Discovery) → Rescheduled os p s (reschedule os p s)
unfolding reschedule read_clock
reschedule-Rescheduled os p s = elim (Bool-cases (p.current == ntohl p.end_ip)) [
  | inl last ↦ elim (Bool-cases (ltb s.ping_retries p.retry)) [
    | inl late ↦
        rw (last, late)
          (inr (p, ping_timeout_interval, s.scheduler, itself, refl, omega arith, refl, refl))
    | inr early ↦
        rw (last, early)
          (inr (
            p,
            last_delay p.time (now_ms os s.scheduler).0,
            (now_ms os s.scheduler).1,
            itself,
            refl,
            last_delay_bound p.time (now_ms os s.scheduler).0,
            read_keeps,
            refl,
          ))
  ]
  | inr inner ↦ elim (Bool-cases (p.current == ntohl p.start_ip)) [
    | inl first ↦
        rw (inner, first)
          (inr (
            record p { time = (now_ms os s.scheduler).0 },
            ping_interval,
            (now_ms os s.scheduler).1,
            omega arith,
            refl,
            omega arith,
            read_keeps,
            refl,
          ))
    | inr other ↦ rw (inner, other) (inl refl)
  ]
]
  where
    itself : IsOf p p
    itself = omega arith

    read_keeps : (now_ms os s.scheduler).1.schedq ≡ s.scheduler.schedq
    read_keeps = refl

-- What a call of `ping_send` for the discovery `p` leaves: the queue is valid, what was sent went to
-- targets, and what was replied came from the cache. Either the discovery is out of the queue and the
-- scheduler is as it was, or its entry is written back: to run again, or handed to the scheduler for
-- a time of at most PING_TIMEOUT_INTERVAL.
abbrev pub Pinged : Net → Ping → Discovery → Result → Type 0
Pinged net p s (done more s') =
    IsValid s'
    × Grown (IsTarget p) s.sent s'.sent
    × Grown (IsCachedReply p s.cache) s.replies s'.replies
    × ((s'.cache ≡ s.cache) × (s'.ping_retries ≡ s.ping_retries))
    × (((more ≡ false)
          × (s'.ping_q ≡ remove_ping p.address s.ping_q)
          × (s'.scheduler ≡ s.scheduler))
        ⊎ ((p' : Ping) × IsOf p p'
            × IsPing p'
            × (s'.ping_q ≡ write_back p' s.ping_q)
            × (((more ≡ true) × (s'.scheduler ≡ s.scheduler))
                ⊎ ((more ≡ false)
                    × (ms : ℕ) × (t : Scheduler) × (ms ≤ ping_timeout_interval)
                    × (t.schedq ≡ s.scheduler.schedq)
                    × (s'.scheduler
                        ≡ (sched_add net.os (pos ms) ping_send_callback p.address t).1)))))
Pinged net p s exit = NoSocket net s
Pinged net p s no_fuel = ⊥
Pinged net p s dangling = ⊥

module _ (net : Net) (p : Ping) (s : Discovery) (v : IsValid s) where
  over-Pinged : (s' : Discovery) → LoopPost net p s (over s') → Pinged net p s (done false s')
  unfolding remove_ping_q
  over-Pinged s' (t, a, e) =
      subst (λ u. Pinged net p s (done false u)) (sym e)
        (
          removed-IsValid p.address s (remove_ping_q p.address t) v
              (ap (remove_ping p.address) a.ping_q) a.next,
          a.sent,
          a.replies,
          (a.cache, a.ping_retries),
          inl (refl, ap (remove_ping p.address) a.ping_q, a.scheduler),
        )

  IsPing-of : (q q' : Ping) → IsOf q q' → q'.current ≡ q.current → IsPing q → IsPing q'
  IsPing-of q q' k c w = omega (arith, w, ap ntohl k.start_ip, ap ntohl k.end_ip)

  left-Pinged :
      (q : Ping) (t : Discovery) (r : Bool × Discovery)
      → LoopPost net p s (left q t)
      → Rescheduled net.os q t r
      → Pinged net p s (done r.0 r.1)
  left-Pinged q t r (h, w, a) (inl e) =
      let written = ap (write_back q) a.ping_q in
      subst (λ u. Pinged net p s (done u.0 u.1)) (sym e)
        (
          written-IsValid q s (record t { ping_q = write_back q t.ping_q }) v w written a.next,
          a.sent,
          a.replies,
          (a.cache, a.ping_retries),
          inr (q, h, w, written, inl (refl, a.scheduler)),
        )
  left-Pinged q t r (h, w, a) (inr (q', ms, u, k, c, b, d, e)) =
      let written = ap (write_back q') a.ping_q in
      let h' : IsOf p q' = omega (arith, h, k) in
      let w' = IsPing-of q q' k c w in
      subst (λ u. Pinged net p s (done u.0 u.1)) (sym e)
        (
          written-IsValid q' s (schedule_ping net.os ms q' t u) v w' written a.next,
          a.sent,
          a.replies,
          (a.cache, a.ping_retries),
          inr (
            q',
            h',
            w',
            written,
            inr (
              refl,
              ms,
              u,
              b,
              d ∙ ap (λ (x : Scheduler). x.schedq) a.scheduler,
              ap (λ x. (sched_add net.os (pos ms) ping_send_callback x u).1) h'.address,
            ),
          ),
        )

  loop-Pinged :
      (l : Loop)
      → LoopPost net p s l
      → Pinged net p s (elim l [
        | left p' s' ↦ let (more, s'') = reschedule net.os p' s' in done more s''
        | over s' ↦ done false s'
        | exited ↦ exit
        | no_fuel ↦ no_fuel
      ])
  loop-Pinged (left q t) h =
      left-Pinged q t (reschedule net.os q t) h (reschedule-Rescheduled net.os q t)
  loop-Pinged (over t) h = over-Pinged t h
  loop-Pinged exited h = h
  loop-Pinged no_fuel h = h

-- `ping_send` of a discovery in the queue ends, with fuel for the addresses that remain and four
-- failures of sendto(), while the retries are at most 2 ^ 32 - 2; or the program exits, and only when no
-- socket is open and the system gives none. The queue stays valid; pings went to addresses of the range
-- alone, and to no broadcast address; replies came from the cache. Either the discovery is out of the
-- queue, or it is written back, to run again at its old delay or handed to the scheduler for a delay of
-- at most PING_TIMEOUT_INTERVAL.
pub ping_send-Pinged :
    (net : Net) (fuel a : ℕ) (p : Ping) (s : Discovery)
    → IsValid s
    → find_ping a s.ping_q ≡ some p
    → s.ping_retries + 1 < 2 ^ 32
    → remaining s.ping_retries p + 4 < fuel
    → Pinged net p s (ping_send net fuel a s)
unfolding ping_send
ping_send-Pinged net fuel a p s v found small enough =
    let (named, w) = find_ping-found a s.ping_q p found v.pings in
    let post = send_loop-LoopPost p net fuel 0 p s (omega arith) w small enough in
    rw (found, ping_send) (loop-Pinged net p s v (send_loop net fuel 0 p s) post)

last_delay_zero :
    (time ms : ℕ)
    → 0 < time
    → time < 2 ^ 32
    → ms ≡ (time + ping_timeout_interval) % 2 ^ 32
    → last_delay time ms ≡ 0
unfolding last_delay
last_delay_zero time ms started small now = ground arith

-- The defect at the end of a pass: when exactly PING_TIMEOUT_INTERVAL has gone by since the time that
-- the entry keeps, the delay is 0, for which `cheops_sched_add` queues nothing; the callback returns
-- 0, and the discovery stays in its queue with nothing to run it.
pub reschedule-stalls :
    (os : Os) (p : Ping) (s : Discovery)
    → p.current ≡ ntohl p.end_ip
    → p.retry ≤ s.ping_retries
    → 0 < p.time
    → p.time < 2 ^ 32
    → (now_ms os s.scheduler).0 ≡ (p.time + ping_timeout_interval) % 2 ^ 32
    → let (more, s') = reschedule os p s in
      (more ≡ false)
      × (s'.scheduler.schedq ≡ s.scheduler.schedq)
      × (s'.ping_q ≡ write_back p s.ping_q)
unfolding reschedule sched_add read_clock
reschedule-stalls os p s last early started small now =
    let at_end : (p.current == ntohl p.end_ip) ≡ true = ground arith in
    let more_passes : ltb s.ping_retries p.retry ≡ false = ground arith in
    let zero_delay = last_delay_zero p.time (now_ms os s.scheduler).0 started small now in
    rw (at_end, more_passes, zero_delay) (refl, refl, refl)
