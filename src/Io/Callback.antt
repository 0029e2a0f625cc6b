-- ===== src/Io/Callback.antt =====
-- What one callback of `cheops_io_wait` may do to the table, and what it may not.
use cheops_ng.Prelude.{
  update, ℕ, ◌+◌, ◌-◌, ◌^◌, ◌<◌, ◌≡◌, ◌≢◌, Bool, false, Option-cases, [], ◌∷◌, Option, none, some,
  ◌⊎◌, inl, inr, ◌∙◌, ap, sym, arith, ℕ_discrete,
}
use cheops_ng.Prelude.Int.{pos, eqb_ℤ}
use cheops_ng.Io.Defs.{Io, Memory, store_id, io_shrink}
use cheops_ng.Io.Invariant.{Sized, Linked}
use cheops_ng.Io.Shrink.{
  covered, io_shrink-covered, io_shrink-remove_at, remove_at-freed, move_last-other, store_id-live,
  free_id-live, io_remove-io_shrink,
}
use cheops_ng.Io.Wait.{remove, Reaction, Callbacks, do_call, do_calls, settle, retire, serve}

-- An entry of the table whose id has been freed.
abbrev IsDangling : ℕ → Option Io → Type 0
IsDangling j r =
    (r ≡ none) ⊎ ((s' : Io) × (r ≡ some s') × (j < s'.fdcnt) × (s'.cell (s'.ior j).id ≡ none))

store_id-dead : (p v : ℕ) (s : Io) → s.cell p ≡ none → store_id p v s ≡ none
unfolding store_id
store_id-dead p v s e = rw (e, store_id)

ids_differ :
    (t : Io) (x m i : ℕ)
    → update t.cell (t.ior x).id none (t.ior m).id ≡ some i
    → (t.ior x).id ≢ (t.ior m).id
ids_differ t x m i live q = ground arith

-- `io_shrink` at the index just behind the table, where a stale copy of the entry `j` stands.
stale_shrink :
    (x j : ℕ) (t : Io)
    → t.fdcnt ≡ x
    → x < 2 ^ 32
    → j < x
    → t.cell (t.ior x).id ≡ some j
    → (t.ior j).id ≡ (t.ior x).id
    → IsDangling j (io_shrink x t)
stale_shrink x j t n small h e same =
    let m = t.fdcnt - 1 in
    let fewer = record t { fdcnt = m } in
    let freed = record fewer { cell = update t.cell (t.ior x).id none } in
    let moved = record freed { fds = update t.fds x (t.fds m); ior = update t.ior x (t.ior m) } in
    let to_store : io_shrink x t ≡ store_id (t.ior m).id x moved =
      io_shrink-remove_at x t (omega arith) (omega arith)
      ∙ remove_at-freed x fewer freed (free_id-live (t.ior x).id j fewer e)
      ∙ move_last-other x freed (omega arith) in
    elim (Option-cases (moved.cell (t.ior m).id)) [
      | inl dead ↦ inl (to_store ∙ store_id-dead (t.ior m).id x moved dead)
      | inr (i, live) ↦ inr (
        record moved { cell = update moved.cell (t.ior m).id (some x) },
        to_store ∙ store_id-live (t.ior m).id x i moved live,
        below_last (ids_differ t x m i live),
        ground (arith, same, ids_differ t x m i live),
      )
    ]
  where
    below_last : (t.ior x).id ≢ (t.ior (t.fdcnt - 1)).id → j < t.fdcnt - 1
    below_last ne = elim (ℕ_discrete j (t.fdcnt - 1)) [
      | yes q ↦ absurd (ne (sym same ∙ ap (λ a. (t.ior a).id) q))
      | no q ↦ omega arith
    ]

module _ (memory : Memory) (react : Callbacks) where
  abbrev pub running : ℕ → Io → Io
  running x s = record s { current_ioc = pos x; remove_current_ioc = false }

  pub serve-called :
      (x i : ℕ) (s s' : Io) (r : Reaction)
      → s.cell (s.ior x).id ≡ some i
      → react (s.ior x) (s.fds x).fd (s.fds x).revents (running i s) ≡ r
      → do_calls memory react r.calls (running i s) ≡ some s'
      → serve memory react x s ≡ retire memory react x r.again s'
  unfolding serve
  serve-called x i s s' r e f g =
      rw (e, serve)
        (ap (λ (q : Reaction). after (do_calls memory react q.calls (running i s)) q.again) f
          ∙ ap (λ o. after o r.again) g)
    where
      after : Option Io → Bool → Option Io
      after o again = elim o [ none ↦ none | some s'' ↦ retire memory react x again s'' ]

  removes :
      (k x p j : ℕ) (s : Io)
      → Sized k s
      → Linked s
      → s.fdcnt ≡ x + 1
      → s.cell p ≡ some j
      → j < x
      → do_calls memory react (remove p ∷ []) (running x s) ≡ some (covered j (running x s))
  unfolding do_calls do_call
  removes k x p j s z l n e h =
      let t = running x s in
      let l' : Linked t = record { linked = l.linked; owned = l.owned; fresh = l.fresh } in
      let shrunk = io_shrink-covered j t (omega (arith, z)) (omega arith) l' in
      let other : eqb_ℤ (pos x) (pos j) ≡ false = ground arith in
      rw (io_remove-io_shrink p j t (covered j t) e other (omega arith) shrunk, do_calls, do_call)

  -- The defect: the callback of the last entry removes another one and returns 0. The last entry is
  -- moved down while it runs, and is then taken out at the index where it was.
  pub remove_other_breaks :
      (k x p j : ℕ) (s : Io)
      → Sized k s
      → Linked s
      → s.fdcnt ≡ x + 1
      → s.cell p ≡ some j
      → j < x
      → react (s.ior x) (s.fds x).fd (s.fds x).revents (running x s)
        ≡ record { calls = remove p ∷ []; again = false }
      → (serve memory react x s ≡ none)
        ⊎ ((s' : Io) × (serve memory react x s ≡ some s')
            × (j < s'.fdcnt)
            × (s'.cell (s'.ior j).id ≡ none))
  unfolding serve do_calls do_call retire
  remove_other_breaks k x p j s z l n e h r =
      let t = covered j (running x s) in
      let at_x : s.fdcnt - 1 ≡ x = omega arith in
      let called =
        serve-called x x s t _ (l.linked x (omega arith)) r (removes k x p j s z l n e h) in
      elim (stale_shrink x j t (omega arith) (omega (arith, z)) h (rw at_x (ground arith))
        (rw at_x (ground arith))) [
          | inl fault ↦ inl (called ∙ rw (fault, retire))
          | inr (s', shrunk, below, dead) ↦
              inr (settle memory react s', called ∙ rw (shrunk, retire), below, dead)
        ]
