-- ===== src/OsScan/Order.antt =====
-- Every interleaving of the main thread and the thread of the scans.
use cheops_ng.Prelude.{
  Has, Has-append, Has-snoc, ℕ, zero, suc, ◌+◌, ◌≡◌, refl, Bool, true, false, Bool-cases, inl, inr,
  List, [], ◌∷◌, ◌++◌, length, length-append, All, All-map, Option, none, some, some_eq, none-some,
  ◌==◌, ◌||◌, arith, ap, sym, subst, ◌∙◌,
}
use mathlib.Core.List.{append_assoc, append-nil}
use cheops_ng.OsScan.Reply.{Scan, Reply, send_osscan_reply}
use cheops_ng.OsScan.Worker.{
  Job, Phase, idle, woken, scanning, found, written, addressed, handed, State, enqueue_osscan,
  sem_wait, keep_reply, agent_osscan_send_event, unlock_read, take, finish_job, work,
}

-- The job that the thread has.
abbrev pub in_hand : Phase → List Job
in_hand idle = []
in_hand woken = []
in_hand (scanning q) = q ∷ []
in_hand (found q n) = q ∷ []
in_hand (written q) = q ∷ []
in_hand (addressed q) = q ∷ []
in_hand (handed q) = q ∷ []

-- Whether the thread has come through sem_wait() and taken nothing yet.
abbrev pub woken_count : Phase → ℕ
woken_count woken = 1
woken_count p = 0

abbrev pub posting_count : Bool → ℕ
posting_count true = 1
posting_count false = 0

abbrev pub Holds : List Reply → Option Reply → Type 0
Holds made none = Unit
Holds made (some e) = Has made e

-- The counters are those of the list; the jobs are taken in the order in which they were queued, and
-- freed in that order once each; what is in the buffer and what was sent are whole replies.
pub record IsOrdered (s : State) : Type 0 where
  pub counted : length s.queue ≡ s.sem + posting_count s.posting + woken_count s.phase
  pub outstanding : s.outstanding ≡ length s.queue
  pub order : s.queued ≡ s.taken ++ s.queue
  pub freed : s.taken ≡ s.freed ++ in_hand s.phase
  pub buffer : Holds s.made s.buffer
  pub sent : All (λ x. Has s.made x.reply) s.sent

held : (s : State) (p : Phase) → s.phase ≡ p → IsOrdered s → s.taken ≡ s.freed ++ in_hand p
held s p e v = v.freed ∙ ap (λ x. s.freed ++ in_hand x) e

pub waiting :
    (s : State) (p : Phase)
    → s.phase ≡ p
    → IsOrdered s
    → length s.queue ≡ s.sem + posting_count s.posting + woken_count p
waiting s p e v = v.counted ∙ ap (λ x. s.sem + posting_count s.posting + woken_count x) e

-- What `enqueue_osscan` does with a job that has all it needs.
abbrev append_job : Job → State → State
append_job q s = record s {
  queue = s.queue ++ (q ∷ []);
  outstanding = s.outstanding + 1;
  posting = true;
  queued = s.queued ++ (q ∷ []);
}

append_job-IsOrdered :
    (q : Job) (s : State) → s.posting ≡ false → IsOrdered s → IsOrdered (append_job q s)
append_job-IsOrdered q s e v =
    let longer : length (s.queue ++ (q ∷ [])) ≡ length s.queue + 1 =
      length-append s.queue (q ∷ []) in
    let posted : posting_count s.posting ≡ 0 = ap posting_count e in
    record {
      counted = let a = v.counted in omega arith;
      outstanding = let b = v.outstanding in omega arith;
      order = ap (λ l. l ++ (q ∷ [])) v.order ∙ append_assoc s.taken s.queue (q ∷ []);
      freed = v.freed;
      buffer = v.buffer;
      sent = v.sent;
    }

pub enqueue_osscan-IsOrdered :
    (memory : Bool) (q : Job) (s : State)
    → s.posting ≡ false
    → IsOrdered s
    → IsOrdered (enqueue_osscan memory q s)
unfolding enqueue_osscan
enqueue_osscan-IsOrdered memory q s e v =
    elim (Bool-cases (q.name == 0 || q.np == 0 || q.agent == 0)) [
      | inl k ↦ rw k v
      | inr k ↦ elim (Bool-cases memory) [
        | inl m ↦ rw (k, m) (append_job-IsOrdered q s e v)
        | inr m ↦ rw (k, m) v
      ]
    ]

take-IsOrdered :
    (l : List Job) (s : State) → s.queue ≡ l → s.phase ≡ woken → IsOrdered s → IsOrdered (take l s)
unfolding take
take-IsOrdered [] s e w v =
    let a = waiting s woken w v in
    let none_left : length s.queue ≡ 0 = ap length e in absurd (omega arith)
take-IsOrdered (q ∷ rest) s e w v =
    let a = waiting s woken w v in
    let b = v.outstanding in
    let one_left : length s.queue ≡ suc (length rest) = ap length e in
    record {
      counted = omega arith;
      outstanding = omega arith;
      order = v.order ∙ ap (λ l. s.taken ++ l) e ∙ sym (append_assoc s.taken (q ∷ []) rest);
      freed = ap (λ l. l ++ (q ∷ [])) (held s woken w v ∙ append-nil s.freed);
      buffer = v.buffer;
      sent = v.sent;
    }

finish_job-IsOrdered :
    (q : Job) (p : Phase) (s : State)
    → s.phase ≡ p
    → in_hand p ≡ q ∷ []
    → woken_count p ≡ 0
    → IsOrdered s
    → IsOrdered (finish_job q s)
finish_job-IsOrdered q p s e h w v =
    let a = waiting s p e v in
    record {
      counted = omega arith;
      outstanding = v.outstanding;
      order = v.order;
      freed = held s p e v ∙ ap (λ l. s.freed ++ l) h ∙ sym (append-nil (s.freed ++ (q ∷ [])));
      buffer = v.buffer;
      sent = v.sent;
    }

sem_wait-IsOrdered :
    (n : ℕ) (s s' : State)
    → s.sem ≡ n
    → s.phase ≡ idle
    → IsOrdered s
    → sem_wait n s ≡ some s'
    → IsOrdered s'
unfolding sem_wait
sem_wait-IsOrdered zero s s' c e v ran = absurd (none-some ran)
sem_wait-IsOrdered (suc n) s s' c e v ran =
    let a = waiting s idle e v in
    subst IsOrdered (some_eq ran) (record {
      counted = omega arith;
      outstanding = v.outstanding;
      order = v.order;
      freed = held s idle e v;
      buffer = v.buffer;
      sent = v.sent;
    })

Holds-append : (l m : List Reply) (b : Option Reply) → Holds l b → Holds (l ++ m) b
Holds-append l m none h = tt
Holds-append l m (some e) h = Has-append l m e h

keep_reply-IsOrdered :
    (q : Job) (n : Scan) (b : Option Reply) (s s' : State)
    → s.phase ≡ found q n
    → IsOrdered s
    → keep_reply q b s ≡ some s'
    → IsOrdered s'
unfolding keep_reply
keep_reply-IsOrdered q n none s s' e v ran = absurd (none-some ran)
keep_reply-IsOrdered q n (some r) s s' e v ran = subst IsOrdered (some_eq ran) (record {
  counted = waiting s (found q n) e v;
  outstanding = v.outstanding;
  order = v.order;
  freed = held s (found q n) e v;
  buffer = Has-snoc s.made r;
  sent = All-map _ _ s.sent (λ x h. Has-append s.made (r ∷ []) x.reply h) v.sent;
})

pub work-IsOrdered :
    (result : Option Scan) (p : Phase) (s s' : State)
    → s.phase ≡ p
    → IsOrdered s
    → work result p s ≡ some s'
    → IsOrdered s'
unfolding work sem_wait keep_reply agent_osscan_send_event unlock_read
work-IsOrdered result idle s s' e v ran = sem_wait-IsOrdered s.sem s s' refl e v ran
work-IsOrdered result woken s s' e v ran =
    subst IsOrdered (some_eq ran) (take-IsOrdered s.queue s refl e v)
work-IsOrdered none (scanning q) s s' e v ran =
    subst IsOrdered (some_eq ran) (finish_job-IsOrdered q (scanning q) s e refl refl v)
work-IsOrdered (some n) (scanning q) s s' e v ran = subst IsOrdered (some_eq ran) (record {
  counted = waiting s (scanning q) e v;
  outstanding = v.outstanding;
  order = v.order;
  freed = held s (scanning q) e v;
  buffer = v.buffer;
  sent = v.sent;
})
work-IsOrdered result (found q n) s s' e v ran =
    keep_reply-IsOrdered q n (send_osscan_reply n q.np) s s' e v ran
work-IsOrdered result (written q) s s' e v ran = subst IsOrdered (some_eq ran) (record {
  counted = waiting s (written q) e v;
  outstanding = v.outstanding;
  order = v.order;
  freed = held s (written q) e v;
  buffer = v.buffer;
  sent = v.sent;
})
work-IsOrdered result (addressed q) s s' e v ran = subst IsOrdered (some_eq ran) (record {
  counted = waiting s (addressed q) e v;
  outstanding = v.outstanding;
  order = v.order;
  freed = held s (addressed q) e v;
  buffer = v.buffer;
  sent = v.sent;
})
work-IsOrdered result (handed q) s s' e v ran =
    subst IsOrdered (some_eq ran) (finish_job-IsOrdered q (handed q) s e refl refl v)
