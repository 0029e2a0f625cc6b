-- ===== src/Io/Defs.antt =====
-- The state of io.c and its operations. The arrays `fds` and `ior` are functions of the index beside
-- their sizes in entries; an id handed out to a caller is a pointer, and `cell` is the `int` that it
-- points to while it is allocated. `none` is a fault: an access out of the arrays or through a freed
-- pointer.
use cheops_ng.Prelude.{
  update, ℕ, ◌+◌, ◌-◌, ◌%◌, ◌^◌, Bool, true, false, Option, none, some, ltb, ◌==◌, ◌&&◌,
  if◌then◌else◌,
}
use cheops_ng.Prelude.Int.{ℤ, pos, negsuc, ltb_ℤ, eqb_ℤ}

-- `struct pollfd`
pub record PollFd : Type 0 where
  pub fd : ℤ
  pub events : ℕ
  pub revents : ℕ

-- `struct io_rec`; a callback, its data and the id are pointers.
pub record IoRec : Type 0 where
  pub callback : ℕ
  pub arg : ℕ
  pub id : ℕ

-- The static variables of io.c, with the sizes of the arrays, the ids that are allocated, the next
-- pointer that malloc() will give, and the number of requests for memory so far.
pub record Io : Type 0 where
  pub fds : ℕ → PollFd
  pub ior : ℕ → IoRec
  pub fds_size : ℕ
  pub ior_size : ℕ
  pub fdcnt : ℕ
  pub maxfdcnt : ℕ
  pub current_ioc : ℤ
  pub remove_current_ioc : Bool
  pub cell : ℕ → Option ℕ
  pub next : ℕ
  pub requests : ℕ

abbrev pub initial : Io
initial = record {
  fds = λ i. record { fd = pos 0; events = 0; revents = 0 };
  ior = λ i. record { callback = 0; arg = 0; id = 0 };
  fds_size = 0;
  ior_size = 0;
  fdcnt = 0;
  maxfdcnt = 2 ^ 32 - 1;
  current_ioc = negsuc 0;
  remove_current_ioc = false;
  cell = λ p. none;
  next = 1;
  requests = 0;
}

-- Whether the n-th malloc() or realloc() gives memory.
abbrev pub Memory : Type 0
Memory = ℕ → Bool

abbrev pub grow_shrink_size : ℕ
grow_shrink_size = 512

-- `io_grow`, `true` for its 0 and `false` for its -1. `maxfdcnt` is an `unsigned int`.
unfoldable pub io_grow : Memory → Io → Bool × Io
io_grow memory s =
    let m = (s.maxfdcnt + grow_shrink_size) % 2 ^ 32 in
    let size = (m + 1) % 2 ^ 32 in
    let back = (m + 2 ^ 32 - grow_shrink_size) % 2 ^ 32 in
    if memory s.requests
    then (if memory (s.requests + 1)
        then (
          true,
          record s { maxfdcnt = m; ior_size = size; fds_size = size; requests = s.requests + 2 },
        )
        else (false, record s { maxfdcnt = back; ior_size = size; requests = s.requests + 2 }))
    else (false, record s { maxfdcnt = back; requests = s.requests + 1 })

-- The table with an entry filled in at the index `fdcnt`, under the id that malloc() gave for it
-- (counted then) or with NULL.
abbrev pub appended : ℤ → ℕ → ℕ → ℕ → Io → Io
appended fd callback events arg s = record s {
  fds = update s.fds s.fdcnt (record { fd = fd; events = events; revents = 0 });
  ior = update s.ior s.fdcnt (record { callback = callback; arg = arg; id = s.next });
  cell = update s.cell s.next (some s.fdcnt);
  next = s.next + 1;
  fdcnt = s.fdcnt + 1;
  requests = s.requests + 1;
}

abbrev pub abandoned : ℤ → ℕ → ℕ → ℕ → Io → Io
abandoned fd callback events arg s = record s {
  fds = update s.fds s.fdcnt (record { fd = fd; events = events; revents = 0 });
  ior = update s.ior s.fdcnt (record { callback = callback; arg = arg; id = 0 });
  requests = s.requests + 1;
}

-- The rest of `cheops_io_add`, once the arrays have been grown. The result is the id, `none` for
-- NULL.
unfoldable pub add_entry : Memory → ℤ → ℕ → ℕ → ℕ → Io → Option (Option ℕ × Io)
add_entry memory fd callback events arg s =
    if ltb s.fdcnt s.fds_size && ltb s.fdcnt s.ior_size
    then (if memory s.requests
        then some (some s.next, appended fd callback events arg s)
        else some (none, abandoned fd callback events arg s))
    else none

unfoldable pub io_add : Memory → ℤ → ℕ → ℕ → ℕ → Io → Option (Option ℕ × Io)
unfolding io_grow add_entry
io_add memory fd callback events arg s =
    let (grown, s') = io_grow memory s in
    if ltb s.fdcnt s.maxfdcnt
    then (if grown then add_entry memory fd callback events arg s' else some (none, s'))
    else add_entry memory fd callback events arg s

abbrev pub or_else : ℕ → ℕ → ℕ
or_else new old = if new == 0 then old else new

-- `cheops_io_change`: what is not given (a negative fd, a 0) stays.
unfoldable pub io_change : ℕ → ℤ → ℕ → ℕ → ℕ → Io → Option (Option ℕ × Io)
io_change id fd callback events arg s = elim (s.cell id) [
  | none ↦ none
  | some i ↦
      let f = s.fds i in
      let r = s.ior i in
      if ltb i s.fdcnt
      then some (
        some id,
        record s {
          fds = update s.fds i (record f {
            fd = if ltb_ℤ (negsuc 0) fd then fd else f.fd;
            events = or_else events f.events;
          });
          ior =
              update s.ior i
                (record r { callback = or_else callback r.callback; arg = or_else arg r.arg });
        },
      )
      else some (none, s)
]

-- free() of an id, and a store through one; both want it to be allocated.
unfoldable pub free_id : ℕ → Io → Option Io
free_id p s = elim (s.cell p) [
  | none ↦ none
  | some _ ↦ some (record s { cell = update s.cell p none })
]

unfoldable pub store_id : ℕ → ℕ → Io → Option Io
store_id p i s = elim (s.cell p) [
  | none ↦ none
  | some _ ↦ some (record s { cell = update s.cell p (some i) })
]

-- The second half of `io_shrink`: the last entry, at the index `fdcnt`, covers the one removed.
unfoldable pub move_last : ℕ → Io → Option Io
unfolding store_id
move_last which s =
    if which == s.fdcnt
    then some s
    else store_id (s.ior s.fdcnt).id which (record s {
      fds = update s.fds which (s.fds s.fdcnt);
      ior = update s.ior which (s.ior s.fdcnt);
    })

-- The body of `io_shrink`, once `fdcnt` is lowered.
unfoldable pub remove_at : ℕ → Io → Option Io
unfolding free_id move_last
remove_at which s = elim (free_id (s.ior which).id s) [ none ↦ none | some s' ↦ move_last which s' ]

-- `fdcnt` is an `unsigned int`.
unfoldable pub io_shrink : ℕ → Io → Option Io
unfolding remove_at
io_shrink which s = remove_at which (record s { fdcnt = (s.fdcnt + 2 ^ 32 - 1) % 2 ^ 32 })

-- `cheops_io_remove`, with its result.
unfoldable pub io_remove : ℕ → Io → Option (ℤ × Io)
unfolding io_shrink
io_remove id s = elim (s.cell id) [
  | none ↦ none
  | some i ↦
      if eqb_ℤ s.current_ioc (pos i)
      then some (negsuc 0, record s { remove_current_ioc = true })
      else (if ltb i s.fdcnt
          then (elim (io_shrink i s) [ none ↦ none | some s' ↦ some (pos 0, s') ])
          else some (negsuc 0, s))
]
