-- ===== src/Event/Safety.antt =====
-- `handle_agent` on any bytes at all: it ends, stays inside of its buffer, and calls no handler but
-- the one for a login before the agent is logged in.
use cheops_ng.Prelude.{
  ℕ, zero, suc, ◌+◌, ◌-◌, ◌≤◌, ◌<◌, ◌≡◌, refl, Bool, true, false, Bool-cases, Option-cases, List,
  [], ◌∷◌, some, ltb, leb, ◌==◌, ◌&&◌, inl, inr, ◌∙◌, ap, sym, ℕ_discrete, arith, All, length,
}
use cheops_ng.Prelude.Int.{ℤ, pos, negsuc}
use cheops_ng.Event.Defs.{
  Memory, Header, header_at, agent_recv_buffer_length, event_auth_request, Agent, Action, handled,
  unsupported, ignored, rejected, crashed, Server, dispatch, dispatch_as, write, Outcome, keep,
  stop, destroyed, exit, no_fuel, with_action, length_of, settle, missing_length, again, first_read,
  Wakeup, stray, hangup, failed, got, receive, handle_agent,
}

-- What a client may have done that is not logged in.
abbrev pub IsAllowed : Action → Type 0
IsAllowed (handled h) = h.type ≡ event_auth_request
IsAllowed (unsupported h) = Unit
IsAllowed (ignored h) = Unit
IsAllowed (rejected h) = Unit
IsAllowed (crashed h) = h.type ≡ event_auth_request

-- The end is none but of the fuel; the buffer holds what fits, and the agent is still logged out.
abbrev pub IsGuarded : Outcome → Type 0
IsGuarded (keep g done) =
    (g.filled ≤ agent_recv_buffer_length) × (g.logged_in ≡ false) × All IsAllowed done
IsGuarded (stop g done) =
    (g.filled ≤ agent_recv_buffer_length) × (g.logged_in ≡ false) × All IsAllowed done
IsGuarded destroyed = Unit
IsGuarded exit = Unit
IsGuarded no_fuel = ⊥

-- A wakeup brings no more bytes than read() was asked for.
abbrev pub Fits : Wakeup → Agent → Type 0
Fits stray g = g.filled ≤ agent_recv_buffer_length
Fits hangup g = Unit
Fits failed g = Unit
Fits (got bytes) g = g.filled + length bytes ≤ agent_recv_buffer_length

module _ (v : Server) (guarded : v.authenticating ≡ true)
    (refuses : (f : Memory → Bool → Bool) (b : Memory)
      → v.handlers event_auth_request ≡ some f
      → f b false ≡ false) where
  dispatch-IsAllowed :
      (h : Header) (b : Memory) (logged_in : Bool)
      → logged_in ≡ false
      → IsAllowed (dispatch_as v h b logged_in).0 × ((dispatch_as v h b logged_in).1 ≡ false)
  unfolding dispatch_as
  dispatch-IsAllowed h b true l = absurd (cc)
  dispatch-IsAllowed h b false l = elim (ℕ_discrete h.type event_auth_request) [
    | yes login ↦ elim (Option-cases (v.handlers h.type)) [
      | inl missing ↦ ground (arith, guarded)
      | inr (f, found) ↦ ground (arith, guarded, refuses f b (ap v.handlers (sym login) ∙ found))
    ]
    | no other ↦ ground (arith, guarded)
  ]

  with_action-IsGuarded :
      (a : Action) (o : Outcome) → IsAllowed a → IsGuarded o → IsGuarded (with_action a o)
  with_action-IsGuarded a (keep g done) h k = (k.0, k.1, (h, k.2))
  with_action-IsGuarded a (stop g done) h k = (k.0, k.1, (h, k.2))
  with_action-IsGuarded a destroyed h k = tt
  with_action-IsGuarded a exit h k = tt
  with_action-IsGuarded a no_fuel h k = k

  settle-IsGuarded :
      (continue : ℕ → Agent → Outcome) (filled expected : ℕ) (g : Agent)
      → filled ≤ agent_recv_buffer_length
      → g.logged_in ≡ false
      → ((rest : ℕ) (g' : Agent)
          → g'.filled ≡ 0
          → rest < filled
          → g'.logged_in ≡ false
          → IsGuarded (continue rest g'))
      → IsGuarded (settle v continue filled expected g)
  unfolding settle dispatch
  settle-IsGuarded continue filled expected g k l rest =
      elim (Bool-cases (leb expected filled && ltb 0 expected)) [
        | inl whole ↦
            let d = dispatch-IsAllowed (header_at g.buffer) g.buffer g.logged_in l in
            rw whole
              (with_action-IsGuarded _ _ d.0 (rest (filled - expected) _ refl (ground arith) d.1))
        | inr part ↦ rw part (k, l, tt)
      ]

  again-IsGuarded :
      (fuel res : ℕ) (g : Agent)
      → g.filled + res < fuel
      → g.filled + res ≤ agent_recv_buffer_length
      → g.logged_in ≡ false
      → IsGuarded (again v fuel res g)
  unfolding again
  again-IsGuarded zero res g h k l = absurd (omega arith)
  again-IsGuarded (suc fuel) res g h k l = elim (Bool-cases (ltb res (missing_length g.filled))) [
    | inl short ↦ rw (short, again) (k, l, tt)
    | inr enough ↦ elim (Option-cases (length_of g.buffer)) [
      | inl long ↦ rw (enough, long, again) (omega arith, l, tt)
      | inr (expected, known) ↦
          rw (enough, known, again)
            (settle-IsGuarded (again v fuel) (g.filled + res) expected g k l
              (λ rest g' e r l'. again-IsGuarded fuel rest g' (omega arith) (omega arith) l'))
    ]
  ]

  first_read-IsGuarded :
      (fuel res : ℕ) (g : Agent)
      → g.filled + res < fuel
      → g.filled + res ≤ agent_recv_buffer_length
      → g.logged_in ≡ false
      → IsGuarded (first_read v fuel res g)
  unfolding first_read
  first_read-IsGuarded fuel res g h k l = elim (Bool-cases (ltb res 4)) [
    | inl short ↦ rw (short, first_read) (k, l, tt)
    | inr enough ↦ elim (Option-cases (length_of g.buffer)) [
      | inl long ↦ rw (enough, long, first_read) (omega arith, l, tt)
      | inr (expected, known) ↦
          rw (enough, known, first_read)
            (settle-IsGuarded (again v fuel) (g.filled + res) expected g k l
              (λ rest g' e r l'. again-IsGuarded fuel rest g' (omega arith) (omega arith) l'))
    ]
  ]

  receive-IsGuarded :
      (fuel : ℕ) (bytes : List ℕ) (e : ℤ) (g : Agent)
      → agent_recv_buffer_length < fuel
      → Fits (got bytes) g
      → g.logged_in ≡ false
      → IsGuarded (receive v fuel bytes e g)
  receive-IsGuarded fuel bytes (pos n) g h k l =
      again-IsGuarded fuel (length bytes) (record g { buffer = write g.filled bytes g.buffer })
        (omega arith) k l
  receive-IsGuarded fuel bytes (negsuc n) g h k l =
      first_read-IsGuarded fuel (length bytes) (record g { buffer = write 0 bytes g.buffer })
        (omega arith) k l

  -- Whatever bytes an agent sends before it is logged in, to a server that authenticates and whose
  -- login handler refuses it: with fuel for the bytes of the buffer `handle_agent` ends, no more
  -- bytes are held than the buffer has, only the login handler is called, and the agent stays
  -- logged out.
  pub handle_agent-IsGuarded :
      (fuel : ℕ) (w : Wakeup) (g : Agent)
      → agent_recv_buffer_length < fuel
      → Fits w g
      → g.logged_in ≡ false
      → IsGuarded (handle_agent v fuel w g)
  unfolding handle_agent
  handle_agent-IsGuarded fuel stray g h k l = (k, l, tt)
  handle_agent-IsGuarded fuel hangup g h k l = tt
  handle_agent-IsGuarded fuel failed g h k l = ground arith
  handle_agent-IsGuarded fuel (got []) g h k l = ground arith
  handle_agent-IsGuarded fuel (got (x ∷ bytes)) g h k l =
      elim (Bool-cases (g.filled == agent_recv_buffer_length)) [
        | inl full ↦ rw full tt
        | inr room ↦ rw room (receive-IsGuarded fuel (x ∷ bytes) g.expected_length g h k l)
      ]
