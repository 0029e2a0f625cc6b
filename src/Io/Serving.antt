-- ===== src/Io/Serving.antt =====
-- `cheops_io_wait` with callbacks that remove no entry but their own: it does not fault, and ids
-- and indices stay in step.
use cheops_ng.Prelude.{
  update, ℕ, ◌+◌, ◌*◌, ◌^◌, ◌≤◌, ◌<◌, ◌≡◌, ◌≢◌, refl, Bool, true, Bool-cases, not, List, [], ◌∷◌,
  Option, some, ltb, ◌||◌, ◌⊎◌, inl, inr, ◌∙◌, ap, sym, arith, if◌then◌else◌, All, length,
}
use cheops_ng.Prelude.Int.{ℤ, pos, negsuc, ltb_ℤ}
use cheops_ng.Io.Defs.{IoRec, Io, Memory, or_else, io_change}
use cheops_ng.Io.Invariant.{Sized, Linked, io_add-Linked}
use cheops_ng.Io.Shrink.{io_shrink-Removed, io_remove-marks}
use cheops_ng.Io.Wait.{
  Call, add, change, remove, Callbacks, do_call, do_calls, settle, retire, serve,
}
use cheops_ng.Io.Callback.{running, serve-called}

-- A call that the callback of the entry with the id `own` may make: it changes live entries, and
-- removes itself only.
abbrev pub IsPolite : Io → ℕ → Call → Type 0
IsPolite s own (add fd callback events arg) = Unit
IsPolite s own (change id fd callback events arg) = (i : ℕ) × (s.cell id ≡ some i)
IsPolite s own (remove id) = id ≡ own

-- The state while the callback of the entry `x` runs that began at the state `s₀`.
pub record Serving (x own : ℕ) (start s : Io) : Type 0 where
  pub ids_match : Linked s
  pub inside : x < s.fdcnt
  pub self : (s.ior x).id ≡ own
  pub current : s.current_ioc ≡ pos x
  pub live : (p i : ℕ) → start.cell p ≡ some i → s.cell p ≡ some i

-- `cheops_io_change` of a live id: what is given goes to its entry, and no id changes.
pub io_change-Linked :
    (k id i : ℕ) (fd : ℤ) (callback events arg : ℕ) (s : Io)
    → Sized k s
    → Linked s
    → s.cell id ≡ some i
    → (s' : Io) × (io_change id fd callback events arg s ≡ some (some id, s'))
      × Sized k s'
      × Linked s'
      × (s'.cell ≡ s.cell)
      × ((s'.fdcnt ≡ s.fdcnt) × (s'.current_ioc ≡ s.current_ioc))
      × ((j : ℕ) → (s'.ior j).id ≡ (s.ior j).id)
      × ((j : ℕ) → j ≢ i → (s'.fds j ≡ s.fds j) × (s'.ior j ≡ s.ior j))
      × ((s'.fds i).events ≡ or_else events (s.fds i).events)
      × ((s'.ior i).callback ≡ or_else callback (s.ior i).callback)
unfolding io_change
io_change-Linked k id i fd callback events arg s z l e =
    let f = s.fds i in
    let r = s.ior i in
    let s' = record s {
      fds = update s.fds i (record f {
        fd = if ltb_ℤ (negsuc 0) fd then fd else f.fd;
        events = or_else events f.events;
      });
      ior =
          update s.ior i
            (record r { callback = or_else callback r.callback; arg = or_else arg r.arg });
    } in
    let below : ltb i s.fdcnt ≡ true = ground (arith, l.owned id i e) in
    (
      s',
      rw (e, io_change, below),
      omega (arith, z),
      record {
        linked = λ j q. ground (arith, l.linked j q);
        owned = λ p j q. ground (arith, l.owned p j q);
        fresh = l.fresh;
      },
      refl,
      (refl, refl),
      (λ j. ground arith),
      (λ j q. (ground arith, ground arith)),
      ground arith,
      ground arith,
    )

own_cell :
    (id x own : ℕ) (s : Io)
    → id ≡ own
    → (s.ior x).id ≡ own
    → s.cell (s.ior x).id ≡ some x
    → s.cell id ≡ some x
own_cell id x own s p q e = ap s.cell (p ∙ sym q) ∙ e

module _ (memory : Memory) (react : Callbacks) where
  call-Serving :
      (k x own : ℕ) (start s : Io) (c : Call)
      → 512 * (k + 1) < 2 ^ 32
      → Sized k s
      → Serving x own start s
      → IsPolite start own c
      → (s' : Io) × (do_call memory react c s ≡ some s')
        × ((Sized k s') ⊎ (Sized (k + 1) s'))
        × Serving x own start s'
  unfolding do_call
  call-Serving k x own start s (add fd callback events arg) h z v p =
      let (r, e, z', l, u, a) = io_add-Linked memory fd callback events arg k s h z v.ids_match in
      (
        r.1,
        rw (e, do_call),
        z',
        record {
          ids_match = l;
          inside = omega (arith, v.inside, u.length);
          self = ap (λ (q : IoRec). q.id) (u.entries x v.inside).1 ∙ v.self;
          current = u.current ∙ v.current;
          live = λ q i w. u.ids q i (v.live q i w);
        },
      )
  call-Serving k x own start s (change id fd callback events arg) h z v p =
      let (s', e, z', l, cells, same, ids, others, ev, cb) =
        io_change-Linked k id p.0 fd callback events arg s z v.ids_match (v.live id p.0 p.1) in
      (
        s',
        rw (e, do_call),
        inl z',
        record {
          ids_match = l;
          inside = omega (arith, v.inside, same.0);
          self = ids x ∙ v.self;
          current = same.1 ∙ v.current;
          live = λ q i w. ap (λ (c : ℕ → Option ℕ). c q) cells ∙ v.live q i w;
        },
      )
  call-Serving k x own start s (remove id) h z v p = (
    record s { remove_current_ioc = true },
    rw (
      io_remove-marks id x s (own_cell id x own s p v.self (v.ids_match.linked x v.inside))
          v.current,
      do_call,
    ),
    inl (omega (arith, z)),
    record {
      ids_match = record {
        linked = v.ids_match.linked;
        owned = v.ids_match.owned;
        fresh = v.ids_match.fresh;
      };
      inside = v.inside;
      self = v.self;
      current = v.current;
      live = v.live;
    },
  )

  calls-Serving :
      (k x own : ℕ) (start s : Io) (cs : List Call)
      → 512 * (k + length cs) < 2 ^ 32
      → Sized k s
      → Serving x own start s
      → All (IsPolite start own) cs
      → (s' : Io) × (k' : ℕ) × (do_calls memory react cs s ≡ some s')
        × (k' ≤ k + length cs)
        × Sized k' s'
        × Serving x own start s'
  unfolding do_calls
  calls-Serving k x own start s [] h z v p = (s, k, refl, omega arith, z, v)
  calls-Serving k x own start s (c ∷ cs) h z v p =
      let (s', e, z', v') = call-Serving k x own start s c (omega arith) z v p.0 in
      elim z' [
        | inl kept ↦
            let (s'', k', e', b, z'', v'') =
              calls-Serving k x own start s' cs (omega arith) kept v' p.1 in
            (s'', k', rw (e, do_calls) e', omega arith, z'', v'')
        | inr grown ↦
            let (s'', k', e', b, z'', v'') =
              calls-Serving (k + 1) x own start s' cs (omega arith) grown v' p.1 in
            (s'', k', rw (e, do_calls) e', omega arith, z'', v'')
      ]

  retire-Linked :
      (k x own : ℕ) (again : Bool) (start s : Io)
      → Sized k s
      → Serving x own start s
      → (s' : Io) × (retire memory react x again s ≡ some s') × Sized k s' × Linked s'
  unfolding retire
  retire-Linked k x own again start s z v = elim (Bool-cases (not again || s.remove_current_ioc)) [
    | inl out ↦
        let (s', e, z', l, r) = io_shrink-Removed k x s z v.ids_match v.inside in
        (
          settle memory react s',
          rw (out, e, retire),
          omega (arith, z'),
          record { linked = l.linked; owned = l.owned; fresh = l.fresh },
        )
    | inr stays ↦
        let l = v.ids_match in
        (
          settle memory react s,
          rw stays,
          omega (arith, z),
          record { linked = l.linked; owned = l.owned; fresh = l.fresh },
        )
  ]

  -- A callback that changes live entries only, and removes no entry but its own, is served without
  -- a fault: afterwards each entry's id leads to the entry and no other id is live, and the arrays
  -- have grown at most once for each call.
  pub serve-Linked :
      (k x : ℕ) (s : Io)
      → let r = react (s.ior x) (s.fds x).fd (s.fds x).revents (running memory react x s) in
        512 * (k + length r.calls) < 2 ^ 32
        → Sized k s
        → Linked s
        → x < s.fdcnt
        → All (IsPolite (running memory react x s) (s.ior x).id) r.calls
        → (s' : Io) × (k' : ℕ) × (serve memory react x s ≡ some s')
          × (k' ≤ k + length r.calls)
          × Sized k' s'
          × Linked s'
  serve-Linked k x s h z l b p =
      let start = running memory react x s in
      let r = react (s.ior x) (s.fds x).fd (s.fds x).revents start in
      let v : Serving x (s.ior x).id start start = record {
        ids_match = record { linked = l.linked; owned = l.owned; fresh = l.fresh };
        inside = b;
        self = refl;
        current = refl;
        live = λ q i w. w;
      } in
      let (s', k', e, few, z', v') =
        calls-Serving k x (s.ior x).id start start r.calls h (omega (arith, z)) v p in
      let (s'', e', z'', l'') = retire-Linked k' x (s.ior x).id r.again start s' z' v' in
      (s'', k', serve-called memory react x x s s' r (l.linked x b) refl e ∙ e', few, z'', l'')
