-- ===== src/Sched/Defs.antt =====
-- The state of sched.c and its operations. A pointer to a callback or to its data is a number. The
-- mutexes are left out: each call runs alone.
use cheops_ng.Prelude.{
  ℕ, ◌+◌, ◌-◌, Bool, true, false, List, [], ◌∷◌, Option, none, some, ltb, ◌==◌, if◌then◌else◌,
}
use cheops_ng.Prelude.Int.{ℤ, pos, negsuc, ◌+ℤ◌, ◌-ℤ◌, scale, quot, to_int, ltb_ℤ, eqb_ℤ}
use cheops_ng.Sched.Time.{Timeval, sooner, sched_settime}

-- `struct sched`; the link `next` is the order of the list that holds the entry.
pub record Entry : Type 0 where
  pub id : ℕ
  pub when : Timeval
  pub resched : ℤ
  pub arg : ℕ
  pub callback : ℕ

-- The static variables of sched.c, and three counts that the code does not keep: the entries that
-- malloc() gave and free() has not taken back, and the calls of gettimeofday() and malloc() so far.
pub record Scheduler : Type 0 where
  pub eventcnt : ℕ
  pub schedcnt : ℕ
  pub schedq : List Entry
  pub schedc : List Entry
  pub schedccnt : ℕ
  pub allocated : ℕ
  pub clock_reads : ℕ
  pub mallocs : ℕ

abbrev pub initial : Scheduler
initial = record {
  eventcnt = 1;
  schedcnt = 0;
  schedq = [];
  schedc = [];
  schedccnt = 0;
  allocated = 0;
  clock_reads = 0;
  mallocs = 0;
}

abbrev pub sched_max_cache : ℕ
sched_max_cache = 128

-- What the operating system answers to the n-th gettimeofday() and the n-th malloc().
pub record Os : Type 0 where
  pub gettimeofday : ℕ → Option Timeval
  pub malloc : ℕ → Bool

unfoldable pub sched_release : Entry → Scheduler → Scheduler
sched_release e s =
    if ltb s.schedccnt sched_max_cache
    then record s { schedc = e ∷ s.schedc; schedccnt = s.schedccnt + 1 }
    else record s { allocated = s.allocated - 1 }

-- `schedule`: before the first entry that is strictly later.
unfoldable pub insert : Entry → List Entry → List Entry
insert e [] = e ∷ []
insert e (x ∷ q) = if sooner e.when x.when then e ∷ x ∷ q else x ∷ insert e q

unfoldable pub schedule : Entry → Scheduler → Scheduler
schedule e s = record s { schedq = insert e s.schedq; schedcnt = s.schedcnt + 1 }

-- The loop of `cheops_sched_del`: the queue without the first entry of that id, if there is one.
unfoldable pub unlink_id : ℕ → List Entry → Option (List Entry)
unlink_id id [] = none
unlink_id id (x ∷ q) =
    let rest = unlink_id id q in
    if x.id == id then some q else (elim rest [ none ↦ none | some r ↦ some (x ∷ r) ])

-- The result is 0 or -1. The entry is not handed to `sched_release`.
unfoldable pub sched_del : ℕ → Scheduler → ℤ × Scheduler
unfolding unlink_id
sched_del id s = elim (unlink_id id s.schedq) [
  | none ↦ (negsuc 0, s)
  | some q ↦ (pos 0, record s { schedq = q; schedcnt = s.schedcnt - 1 })
]

-- The milliseconds that `cheops_sched_wait` computes from the head of the queue and the time, in
-- an `int`.
unfoldable pub ms_until : Timeval → Timeval → ℤ
ms_until w tv =
    let seconds = to_int (scale (w.sec -ℤ tv.sec) 1000) in
    let ms = to_int (seconds +ℤ quot (w.usec -ℤ tv.usec) 1000) in
    if ltb_ℤ ms (pos 0) then pos 0 else ms

-- The fields that `cheops_sched_add` fills in; the time is set by `enqueue`.
abbrev pub new_entry : ℤ → ℕ → ℕ → ℕ → Entry
new_entry resched callback arg id = record {
  id = id;
  when = record { sec = pos 0; usec = pos 0 };
  resched = resched;
  arg = arg;
  callback = callback;
}

module _ (os : Os) where
  -- The cache first, else malloc(). What the entry holds is overwritten by the caller.
  unfoldable pub sched_alloc : Scheduler → Bool × Scheduler
  sched_alloc s = elim s.schedc [
    | [] ↦ (
      os.malloc s.mallocs,
      record s {
        mallocs = s.mallocs + 1;
        allocated = if os.malloc s.mallocs then s.allocated + 1 else s.allocated;
      },
    )
    | _ ∷ rest ↦ (true, record s { schedc = rest; schedccnt = s.schedccnt - 1 })
  ]

  -- `none` is a failure of gettimeofday().
  unfoldable pub read_clock : Scheduler → Option Timeval × Scheduler
  read_clock s = (os.gettimeofday s.clock_reads, record s { clock_reads = s.clock_reads + 1 })

  -- The tail of `cheops_sched_add` and of a round of `cheops_sched_runq`: the new time is set and
  -- the entry goes to the queue, or it is released when the clock fails.
  unfoldable pub enqueue : Entry → Scheduler → Bool × Scheduler
  unfolding read_clock sched_settime schedule sched_release
  enqueue e s =
      let (now, s') = read_clock s in
      elim (sched_settime now e.resched) [
        | none ↦ (false, sched_release e s')
        | some w ↦ (true, schedule (record e { when = w }) s')
      ]

  -- `cheops_sched_add` once it has an entry, or none. The id is counted even if the clock fails.
  unfoldable pub add_entry : ℤ → ℕ → ℕ → Bool × Scheduler → ℤ × Scheduler
  add_entry when callback arg (false, s) = (negsuc 0, s)
  add_entry when callback arg (true, s) =
      let (done, s') =
        enqueue (new_entry when callback arg s.eventcnt) (record s { eventcnt = s.eventcnt + 1 }) in
      (if done then pos s.eventcnt else negsuc 0, s')

  -- The id of the new entry, or -1.
  unfoldable pub sched_add : ℤ → ℕ → ℕ → Scheduler → ℤ × Scheduler
  unfolding sched_alloc add_entry
  sched_add when callback arg s =
      if eqb_ℤ when (pos 0) then (negsuc 0, s) else add_entry when callback arg (sched_alloc s)

  unfoldable pub sched_wait : Scheduler → ℤ × Scheduler
  unfolding read_clock ms_until
  sched_wait s = elim s.schedq [
    | [] ↦ (negsuc 0, s)
    | x ∷ _ ↦
        let (now, s') = read_clock s in
        (elim now [ none ↦ pos 0 | some tv ↦ ms_until x.when tv ], s')
  ]
