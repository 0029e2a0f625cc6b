-- ===== src/Probe/Life.antt =====
-- A probe of a port in probe.c: `get_version` and its callbacks. The tables of io.c and sched.c are
-- kept as far as they hold entries of this probe.
use cheops_ng.Prelude.{
  ℕ, ◌+◌, Bool, true, false, List, [], ◌∷◌, Option, none, some, ◌==◌, ◌&&◌, if◌then◌else◌,
}

-- `struct probe_data`. The id of a timer or of a watch is `none` when it is -1 or NULL, and the
-- booleans tell whether the probe and its caller gave the callbacks.
pub record Data : Type 0 where
  pub ip : ℕ
  pub port : ℕ
  pub soid : Option ℕ
  pub siid : Option ℕ
  pub tid : Option ℕ
  pub sent : Bool
  pub has_send : Bool
  pub has_recieve : Bool
  pub has_cb : Bool
  pub has_timeout : Bool

-- What the callbacks of the caller were told: a text or NULL, or that the time is over.
pub data Report : Type 0 where
  version : ℕ → ℕ → Option (List ℕ) → Report
  timed_out : ℕ → ℕ → Report

-- The memory of the probe (`none`: not allocated or freed), its socket, its entries in the two tables,
-- whether the callback that io.c runs has taken another entry out of its table, the calls of the send
-- callback and the reports.
pub record World : Type 0 where
  pub pd : Option Data
  pub socket_open : Bool
  pub out_watch : Option ℕ
  pub in_watch : Option ℕ
  pub timer : Option ℕ
  pub moved : Bool
  pub sends : ℕ
  pub reports : List Report

abbrev pub holds : Option ℕ → ℕ → Bool
holds none id = false
holds (some i) id = i == id

-- `cheops_io_remove`, where the pointer is not NULL. A pointer to no watch is a fault.
unfoldable pub io_remove_if : Option ℕ → World → Option World
io_remove_if none w = some w
io_remove_if (some id) w =
    if holds w.out_watch id
    then some (record w { out_watch = none })
    else (if holds w.in_watch id then some (record w { in_watch = none }) else none)

-- `cheops_sched_del`, where the id is not -1.
unfoldable pub sched_del_if : Option ℕ → World → World
sched_del_if none w = w
sched_del_if (some id) w = if holds w.timer id then record w { timer = none } else w

-- close() of the socket, and free(). What is closed already is a fault.
unfoldable pub dispose : World → Option World
dispose w = if w.socket_open then some (record w { socket_open = false; pd = none }) else none

-- `cheops_io_remove` as a callback of io.c calls it: it moves the last entry of the table down.
abbrev pub removing : Option ℕ → World → World
removing none w = w
removing (some id) w = record w { moved = true }

-- The end of `recieve_cb`, which io.c called.
unfoldable pub finish : Data → World → Option World
unfolding io_remove_if sched_del_if dispose
finish d w = elim (io_remove_if d.soid (sched_del_if d.tid w)) [
  | none ↦ none
  | some w' ↦ dispose (removing d.soid w')
]

-- The return of 0.
abbrev pub ended : Option World → Option (Bool × World)
ended none = none
ended (some w) = some (false, w)

-- `recieve_cb` with what the probe's `recieve` returns, and whether the watch is kept; `none` is a
-- fault, as is the use of memory that was freed.
unfoldable pub recieve_cb : Option (List ℕ) → World → Option (Bool × World)
unfolding finish
recieve_cb string w = elim w.pd [
  | none ↦ none
  | some d ↦
      let told = record w { reports = version d.ip d.port string ∷ w.reports } in
      if d.has_recieve && d.has_cb
      then (if d.sent then ended (finish d told) else some (true, w))
      else ended (finish d w)
]

unfoldable pub send_cb : World → Option (Bool × World)
send_cb w = elim w.pd [
  | none ↦ none
  | some d ↦ some (
    false,
    record w {
      pd = some (record d { sent = true; soid = none });
      sends = if d.has_send then w.sends + 1 else w.sends;
    },
  )
]

abbrev pub reported : Data → World → World
reported d w = if d.has_timeout then record w { reports = timed_out d.ip d.port ∷ w.reports } else w

unfoldable pub timeout_cb : World → Option (Bool × World)
unfolding io_remove_if dispose
timeout_cb w = elim w.pd [
  | none ↦ none
  | some d ↦ elim (io_remove_if d.soid w) [
    | none ↦ none
    | some w1 ↦ elim (io_remove_if d.siid w1) [
      | none ↦ none
      | some w2 ↦ elim (dispose (reported d w2)) [ none ↦ none | some w3 ↦ some (false, w3) ]
    ]
  ]
]

-- What the main loop calls back for; `readable` has what the probe's `recieve` returns, and whether the
-- watch is the last entry of the table. An entry whose callback returned 0 is dropped by io.c or by
-- sched.c, and what has no entry is not called.
pub data Event : Type 0 where
  writable : Event
  readable : Bool → Option (List ℕ) → Event
  elapsed : Event

abbrev pub drop_entry : Event → World → World
drop_entry writable w = record w { out_watch = none }
drop_entry (readable last string) w = record w { in_watch = none; moved = false }
drop_entry elapsed w = record w { timer = none }

-- Whether io.c drops another entry than the one it served: that was the last of the table, and its
-- callback has moved it down.
abbrev pub is_stale : Event → World → Bool
is_stale writable w = false
is_stale (readable last string) w = last && w.moved
is_stale elapsed w = false

-- To drop another entry is a fault.
abbrev pub settle : Event → Option (Bool × World) → Option World
settle e none = none
settle e (some (keep, w)) =
    if keep then some w else (if is_stale e w then none else some (drop_entry e w))

unfoldable pub serve : Event → World → Option World
unfolding send_cb recieve_cb timeout_cb
serve writable w = elim w.out_watch [ none ↦ some w | some id ↦ settle writable (send_cb w) ]
serve (readable last string) w = elim w.in_watch [
  | none ↦ some w
  | some id ↦ settle (readable last string) (recieve_cb string w)
]
serve elapsed w = elim w.timer [ none ↦ some w | some id ↦ settle elapsed (timeout_cb w) ]

unfoldable pub run : List Event → World → Option World
unfolding serve
run [] w = some w
run (e ∷ es) w = elim (serve e w) [ none ↦ none | some w' ↦ run es w' ]

abbrev pub nothing : World
nothing = record {
  pd = none;
  socket_open = false;
  out_watch = none;
  in_watch = none;
  timer = none;
  moved = false;
  sends = 0;
  reports = [];
}

-- The callbacks of a probe and of its caller.
pub record Callbacks : Type 0 where
  pub send : Bool
  pub recieve : Bool
  pub cb : Bool
  pub timeout : Bool

-- `get_version`: whether there is a probe for the port, whether malloc() and
-- `make_nonblock_stream_socket` succeed, and the ids that the tables give.
unfoldable pub get_version :
    Bool → Bool → Bool → Option ℕ → Option ℕ → Option ℕ → Callbacks → ℕ → ℕ → World
get_version found memory socket tid soid siid c addr port =
    if found && memory && socket
    then record {
      pd = some record {
        ip = addr;
        port = port;
        soid = soid;
        siid = siid;
        tid = tid;
        sent = false;
        has_send = c.send;
        has_recieve = c.recieve;
        has_cb = c.cb;
        has_timeout = c.timeout;
      };
      socket_open = true;
      out_watch = soid;
      in_watch = siid;
      timer = tid;
      moved = false;
      sends = 0;
      reports = [];
    }
    else nothing
