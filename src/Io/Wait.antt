-- ===== src/Io/Wait.antt =====
-- `cheops_io_wait`: poll() and the callbacks of what it found.
use cheops_ng.Prelude.{
  ℕ, zero, suc, ◌+◌, Bool, true, false, not, List, [], ◌∷◌, Option, none, some, ltb, ◌==◌, ◌||◌,
  if◌then◌else◌,
}
use cheops_ng.Prelude.Int.{ℤ, pos, negsuc, ltb_ℤ}
use cheops_ng.Io.Defs.{IoRec, Io, Memory, io_add, io_change, io_remove, io_shrink}

-- A callback reaches the table through these calls only.
pub data Call : Type 0 where
  add : ℤ → ℕ → ℕ → ℕ → Call
  change : ℕ → ℤ → ℕ → ℕ → ℕ → Call
  remove : ℕ → Call

-- What a callback does: its calls in order, and whether it returns non-zero to be run again.
pub record Reaction : Type 0 where
  pub calls : List Call
  pub again : Bool

-- The reaction of the callback of an entry, with its id, descriptor, events and data; it may depend
-- on the table.
abbrev pub Callbacks : Type 0
Callbacks = IoRec → ℤ → ℕ → Io → Reaction

-- What poll() returns for the table: its result, and the `revents` of each index.
abbrev pub Poll : Type 0
Poll = Io → ℤ × (ℕ → ℕ)

module _ (memory : Memory) (react : Callbacks) where
  unfoldable pub do_call : Call → Io → Option Io
  do_call (add fd callback events arg) s = elim (io_add memory fd callback events arg s) [
    | none ↦ none
    | some (r, s') ↦ some s'
  ]
  do_call (change id fd callback events arg) s = elim (io_change id fd callback events arg s) [
    | none ↦ none
    | some (r, s') ↦ some s'
  ]
  do_call (remove id) s = elim (io_remove id s) [ none ↦ none | some (r, s') ↦ some s' ]

  unfoldable pub do_calls : List Call → Io → Option Io
  do_calls [] s = some s
  do_calls (c ∷ cs) s = elim (do_call c s) [ none ↦ none | some s' ↦ do_calls cs s' ]

  abbrev pub settle : Io → Io
  settle s = record s { current_ioc = negsuc 0 }

  -- After the callback: its entry is taken out if it returned 0 or asked to be removed.
  unfoldable pub retire : ℕ → Bool → Io → Option Io
  retire x again s =
      if not again || s.remove_current_ioc
      then (elim (io_shrink x s) [ none ↦ none | some s' ↦ some (settle s') ])
      else some (settle s)

  -- The callback of the index `x` is run.
  unfoldable pub serve : ℕ → Io → Option Io
  unfolding do_calls retire
  serve x s = elim (s.cell (s.ior x).id) [
    | none ↦ none
    | some i ↦
        let s' = record s { current_ioc = pos i; remove_current_ioc = false } in
        let r = react (s.ior x) (s.fds x).fd (s.fds x).revents s' in
        elim (do_calls r.calls s') [ none ↦ none | some s'' ↦ retire x r.again s'' ]
  ]

  -- The loop over the table, with fuel: `none` if the fuel runs out, `some none` for a fault.
  unfoldable pub wait_loop : ℕ → ℕ → Io → Option (Option Io)
  unfolding serve
  wait_loop zero x s = none
  wait_loop (suc fuel) x s = elim (ltb x s.fdcnt) [
    | false ↦ some (some s)
    | true ↦ elim ((s.fds x).revents == 0) [
      | true ↦ wait_loop fuel (x + 1) s
      | false ↦ elim (serve x s) [ none ↦ some none | some s' ↦ wait_loop fuel (x + 1) s' ]
    ]
  ]

  unfoldable pub io_wait : Poll → ℕ → Io → Option (ℤ × Option Io)
  unfolding wait_loop
  io_wait poll fuel s =
      let (res, revents) = poll s in
      let polled = record s { fds = λ i. record (s.fds i) { revents = revents i } } in
      if ltb_ℤ (pos 0) res
      then (elim (wait_loop fuel 0 polled) [ none ↦ none | some o ↦ some (res, o) ])
      else some (res, some polled)
