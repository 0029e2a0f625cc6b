-- ===== src/OsScan/Worker.antt =====
-- The queue of scans of agent-osscan.c, the thread that runs them, and the timer that sends what they
-- give. The list and the buffer are changed under mutexes, so that each step stands for what runs
-- between two of them; `os_read_mutex` is a signal of the thread to the timer.
use cheops_ng.Prelude.{
  ℕ, zero, suc, ◌+◌, ◌-◌, Bool, true, false, List, [], ◌∷◌, ◌++◌, Option, none, some, ◌==◌, ◌||◌,
  if◌then◌else◌,
}
use cheops_ng.OsScan.Reply.{Scan, Reply, send_osscan_reply}

-- `os_detect_queue`; texts are names, and 0 is the null pointer.
pub record Job : Type 0 where
  pub name : ℕ
  pub np : ℕ
  pub agent : ℕ
  pub flags : ℕ
  pub ports : ℕ

-- Where the thread stands: before sem_wait(), behind it, in the scan of a job, with what the scan
-- found, behind the write of the buffer, behind the store of the agent, and behind the call of
-- `agent_osscan_send_event`.
pub data Phase : Type 0 where
  idle : Phase
  woken : Phase
  scanning : Job → Phase
  found : Job → Scan → Phase
  written : Job → Phase
  addressed : Job → Phase
  handed : Job → Phase

pub record Sending : Type 0 where
  pub agent : ℕ
  pub reply : Reply

-- The static variables: the list, its counter, the semaphore, the signal, the buffer and the agent to
-- send it to. `posting` tells that the main thread stands before sem_post(). Then what was done, the
-- last at the end: the jobs that were queued, taken and freed, the replies that were made, and what
-- was sent.
pub record State : Type 0 where
  pub queue : List Job
  pub outstanding : ℕ
  pub sem : ℕ
  pub posting : Bool
  pub phase : Phase
  pub ready : Bool
  pub buffer : Option Reply
  pub agent_to_send : ℕ
  pub queued : List Job
  pub taken : List Job
  pub freed : List Job
  pub made : List Reply
  pub sent : List Sending

abbrev pub initial : State
initial = record {
  queue = [];
  outstanding = 0;
  sem = 0;
  posting = false;
  phase = idle;
  ready = false;
  buffer = none;
  agent_to_send = 0;
  queued = [];
  taken = [];
  freed = [];
  made = [];
  sent = [];
}

-- `enqueue_osscan` up to sem_post(); `memory` is the success of malloc().
unfoldable pub enqueue_osscan : Bool → Job → State → State
enqueue_osscan memory q s =
    if q.name == 0 || q.np == 0 || q.agent == 0
    then s
    else (if memory
        then record s {
          queue = s.queue ++ (q ∷ []);
          outstanding = s.outstanding + 1;
          posting = true;
          queued = s.queued ++ (q ∷ []);
        }
        else s)

-- The head of the list, which the thread takes when it was woken.
unfoldable pub take : List Job → State → State
take [] s = record s { phase = idle }
take (q ∷ rest) s = record s {
  queue = rest;
  outstanding = s.outstanding - 1;
  phase = scanning q;
  taken = s.taken ++ (q ∷ []);
}

abbrev pub finish_job : Job → State → State
finish_job q s = record s { phase = idle; freed = s.freed ++ (q ∷ []) }

-- `sem_wait`, with the value of the semaphore: none when it waits.
unfoldable pub sem_wait : ℕ → State → Option State
sem_wait zero s = none
sem_wait (suc n) s = some (record s { sem = n; phase = woken })

-- The message in the buffer; it has no step when it does not fit.
unfoldable pub keep_reply : Job → Option Reply → State → Option State
keep_reply q none s = none
keep_reply q (some e) s =
    some (record s { phase = written q; buffer = some e; made = s.made ++ (e ∷ []) })

-- The stores of `agent_osscan_send_event`, under no mutex; the event is always the one buffer.
unfoldable pub agent_osscan_send_event : Job → State → State
agent_osscan_send_event q s = record s { phase = addressed q; agent_to_send = q.agent }

-- Its pthread_mutex_unlock(), which lets the timer through.
unfoldable pub unlock_read : Job → State → State
unlock_read q s = record s { phase = handed q; ready = true }

-- The steps of the thread in `dequeue_osscan`, with the result of `nmap_scan` where it is needed.
-- `none` is a step that waits, or the write behind the end of the buffer.
unfoldable pub work : Option Scan → Phase → State → Option State
unfolding take sem_wait keep_reply send_osscan_reply agent_osscan_send_event unlock_read
work result idle s = sem_wait s.sem s
work result woken s = some (take s.queue s)
work none (scanning q) s = some (finish_job q s)
work (some n) (scanning q) s = some (record s { phase = found q n })
work result (found q n) s = keep_reply q (send_osscan_reply n q.np) s
work result (written q) s = some (agent_osscan_send_event q s)
work result (addressed q) s = some (unlock_read q s)
work result (handed q) s = some (finish_job q s)

-- `event_send` of the agent and the message that stand in the variables.
unfoldable pub send_kept : Option Reply → State → State
send_kept none s = record s { ready = false }
send_kept (some e) s = record s {
  ready = false;
  sent = s.sent ++ (record { agent = s.agent_to_send; reply = e } ∷ []);
}

-- `osscan_timer`.
unfoldable pub osscan_timer : State → State
unfolding send_kept
osscan_timer s = if s.ready then send_kept s.buffer s else s

-- A step of either thread. The main thread does nothing else before sem_post().
pub data Move : Type 0 where
  request : Bool → Job → Move
  post : Move
  tick : Move
  thread : Option Scan → Move

unfoldable pub step : Move → State → Option State
unfolding enqueue_osscan work osscan_timer
step (request memory q) s = if s.posting then none else some (enqueue_osscan memory q s)
step post s = if s.posting then some (record s { posting = false; sem = s.sem + 1 }) else none
step tick s = if s.posting then none else some (osscan_timer s)
step (thread result) s = work result s.phase s

unfoldable pub run : List Move → State → Option State
unfolding step
run [] s = some s
run (m ∷ ms) s = elim (step m s) [ none ↦ none | some s' ↦ run ms s' ]
