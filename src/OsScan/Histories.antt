-- ===== src/OsScan/Histories.antt =====
-- What every interleaving of the main thread and the thread of the scans leaves.
use cheops_ng.Prelude.{
  ◌+◌, ◌≡◌, ◌≢◌, refl, true, false, Bool-cases, Option-cases, inl, inr, List, [], ◌∷◌, length,
  All-append, Option, none, some, some_eq, none-some, if◌then◌else◌, arith, ap, subst,
}
use cheops_ng.OsScan.Reply.{Reply}
use cheops_ng.OsScan.Worker.{
  woken, State, initial, send_kept, osscan_timer, Move, request, post, tick, thread, step, run,
}
use cheops_ng.OsScan.Order.{
  posting_count, Holds, IsOrdered, waiting, enqueue_osscan-IsOrdered, work-IsOrdered,
}

send_kept-IsOrdered :
    (b : Option Reply) (s : State) → s.buffer ≡ b → IsOrdered s → IsOrdered (send_kept b s)
unfolding send_kept
send_kept-IsOrdered none s e v = record {
  counted = v.counted;
  outstanding = v.outstanding;
  order = v.order;
  freed = v.freed;
  buffer = v.buffer;
  sent = v.sent;
}
send_kept-IsOrdered (some r) s e v = record {
  counted = v.counted;
  outstanding = v.outstanding;
  order = v.order;
  freed = v.freed;
  buffer = v.buffer;
  sent = All-append _ s.sent _ v.sent (subst (Holds s.made) e v.buffer, tt);
}

osscan_timer-IsOrdered : (s : State) → IsOrdered s → IsOrdered (osscan_timer s)
unfolding osscan_timer
osscan_timer-IsOrdered s v =
    elim s.ready as (λ b. IsOrdered (if b then send_kept s.buffer s else s)) [
      | true ↦ send_kept-IsOrdered s.buffer s refl v
      | false ↦ v
    ]

sem_post-IsOrdered :
    (s : State)
    → s.posting ≡ true
    → IsOrdered s
    → IsOrdered (record s { posting = false; sem = s.sem + 1 })
sem_post-IsOrdered s e v =
    let a = v.counted in
    let posted : posting_count s.posting ≡ 1 = ap posting_count e in
    record {
      counted = omega arith;
      outstanding = v.outstanding;
      order = v.order;
      freed = v.freed;
      buffer = v.buffer;
      sent = v.sent;
    }

step-IsOrdered : (m : Move) (s s' : State) → IsOrdered s → step m s ≡ some s' → IsOrdered s'
unfolding step
step-IsOrdered (request memory q) s s' v ran = elim (Bool-cases s.posting) [
  | inl k ↦ absurd (none-some {w = s'} (ground (arith, ran)))
  | inr k ↦
      subst IsOrdered (some_eq (ground (arith, ran))) (enqueue_osscan-IsOrdered memory q s k v)
]
step-IsOrdered post s s' v ran = elim (Bool-cases s.posting) [
  | inl k ↦ subst IsOrdered (some_eq (ground (arith, ran))) (sem_post-IsOrdered s k v)
  | inr k ↦ absurd (none-some {w = s'} (ground (arith, ran)))
]
step-IsOrdered tick s s' v ran = elim (Bool-cases s.posting) [
  | inl k ↦ absurd (none-some {w = s'} (ground (arith, ran)))
  | inr k ↦ subst IsOrdered (some_eq (ground (arith, ran))) (osscan_timer-IsOrdered s v)
]
step-IsOrdered (thread result) s s' v ran = work-IsOrdered result s.phase s s' refl v ran

run-IsOrdered-from :
    (ms : List Move) (s s' : State) → IsOrdered s → run ms s ≡ some s' → IsOrdered s'
unfolding run
run-IsOrdered-from [] s s' v ran = subst IsOrdered (some_eq ran) v
run-IsOrdered-from (m ∷ ms) s s' v ran = elim (Option-cases (step m s)) [
  | inl k ↦ absurd (none-some {w = s'} (ground (arith, ran)))
  | inr (t, k) ↦ run-IsOrdered-from ms t s' (step-IsOrdered m s t v k) (ground (arith, ran))
]

initial-IsOrdered : IsOrdered initial
initial-IsOrdered = record {
  counted = refl;
  outstanding = refl;
  order = refl;
  freed = refl;
  buffer = tt;
  sent = tt;
}

-- However the steps of the main thread and of the thread of the scans interleave, from the start on:
-- the list has as many jobs as the semaphore counts, with the one whose sem_post() is to come and the
-- one whose sem_wait() is over, and `os_detect_q_outstanding` is that number; the jobs are taken in
-- the order of the requests and freed in that order once each, but the one the thread has; and every
-- message that was sent, or stands in the buffer, is a whole message that `send_osscan_reply` made.
pub run-IsOrdered : (ms : List Move) (s : State) → run ms initial ≡ some s → IsOrdered s
run-IsOrdered ms s ran = run-IsOrdered-from ms initial s initial-IsOrdered ran

-- From the start on, whenever the thread comes out of sem_wait() there is a job in the list for it.
pub woken-never_empty :
    (ms : List Move) (s : State) → run ms initial ≡ some s → s.phase ≡ woken → s.queue ≢ []
woken-never_empty ms s ran e none_left =
    let a = waiting s woken e (run-IsOrdered ms s ran) in
    let b : length s.queue ≡ 0 = ap length none_left in absurd (omega arith)
