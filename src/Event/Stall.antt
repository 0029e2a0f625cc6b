-- ===== src/Event/Stall.antt =====
-- The defect in the reassembly: a message of which more than four bytes, and not all, have come is
-- never completed.
use cheops_ng.Prelude.{
  ℕ, suc, ◌+◌, ◌≤◌, ◌<◌, ◌≡◌, refl, true, false, List, [], ◌∷◌, ◌++◌, some, ltb, leb, ◌==◌, ◌&&◌,
  ◌∙◌, ap, arith, length,
}
use cheops_ng.Prelude.Int.{pos, negsuc}
use cheops_ng.Event.Defs.{
  agent_recv_buffer_length, Agent, Action, Server, write, Outcome, keep, stop, destroyed, exit,
  no_fuel, missing_length, length_of, first_read, settle, again, Wakeup, stray, hangup, failed, got,
  receive, handle_agent,
}

-- The actions of a row of wakeups; a wakeup that ends the agent or the program is the last one.
unfoldable pub session : Server → ℕ → List Wakeup → Agent → List Action
unfolding handle_agent
session v fuel [] g = []
session v fuel (w ∷ ws) g = elim (handle_agent v fuel w g) [
  | keep g' done ↦ done ++ session v fuel ws g'
  | stop g' done ↦ done
  | destroyed ↦ []
  | exit ↦ []
  | no_fuel ↦ []
]

-- More than four bytes of the message are there, and its length is known or was lost.
pub record IsStuck (g : Agent) : Type 0 where
  pub begun : 4 < g.filled
  pub within : g.filled ≤ agent_recv_buffer_length
  pub expecting : (n : ℕ) × (g.expected_length ≡ pos n)

abbrev fed : List ℕ → Agent → Agent
fed bytes g = record g {
  buffer = write g.filled bytes g.buffer;
  filled = g.filled + length bytes;
  expected_length = pos 0;
}

again-short :
    (v : Server) (fuel res : ℕ) (g : Agent)
    → ltb res (missing_length g.filled) ≡ true
    → again v (suc fuel) res g
      ≡ keep (record g { filled = g.filled + res; expected_length = pos 0 }) []
unfolding again
again-short v fuel res g short = rw (short, again)

stuck_receive :
    (v : Server) (fuel : ℕ) (bytes : List ℕ) (n : ℕ) (g : Agent)
    → IsStuck g
    → g.filled + length bytes ≤ agent_recv_buffer_length
    → receive v (suc fuel) bytes (pos n) g ≡ keep (fed bytes g) []
stuck_receive v fuel bytes n g s h =
    again-short v fuel (length bytes) (record g { buffer = write g.filled bytes g.buffer })
      (ground (arith, s, h))

-- The bytes go to the buffer, the length is forgotten, and nothing is dispatched.
stuck_step :
    (v : Server) (fuel x : ℕ) (bytes : List ℕ) (g : Agent)
    → IsStuck g
    → g.filled + length (x ∷ bytes) ≤ agent_recv_buffer_length
    → handle_agent v (suc fuel) (got (x ∷ bytes)) g ≡ keep (fed (x ∷ bytes) g) []
unfolding handle_agent
stuck_step v fuel x bytes g s h =
    let room : (g.filled == agent_recv_buffer_length) ≡ false = ground arith in
    rw room (
      ap (λ e. receive v (suc fuel) (x ∷ bytes) e g) s.expecting.1
      ∙ stuck_receive v fuel (x ∷ bytes) s.expecting.0 g s h)

-- What read() may give in a row: no more bytes than there is room for.
abbrev pub FitsAll : List Wakeup → ℕ → Type 0
FitsAll [] filled = Unit
FitsAll (stray ∷ ws) filled = FitsAll ws filled
FitsAll (hangup ∷ ws) filled = FitsAll ws filled
FitsAll (failed ∷ ws) filled = FitsAll ws filled
FitsAll (got bytes ∷ ws) filled =
    (filled + length bytes ≤ agent_recv_buffer_length) × FitsAll ws (filled + length bytes)

-- From such a state nothing that the peer sends is ever dispatched, the rest of the message
-- included: the bytes only fill the buffer, until it is full and the program exits.
pub stuck_forever :
    (v : Server) (fuel : ℕ) (ws : List Wakeup) (g : Agent)
    → IsStuck g
    → FitsAll ws g.filled
    → session v (suc fuel) ws g ≡ []
unfolding session
stuck_forever v fuel [] g s h = refl
stuck_forever v fuel (stray ∷ ws) g s h = refl
stuck_forever v fuel (hangup ∷ ws) g s h = refl
stuck_forever v fuel (failed ∷ ws) g s h = ground arith
stuck_forever v fuel (got [] ∷ ws) g s h = ground arith
stuck_forever v fuel (got (x ∷ bytes) ∷ ws) g s h =
    rw (stuck_step v fuel x bytes g s h.0, session)
      (stuck_forever v fuel ws (fed (x ∷ bytes) g)
        (record { begun = omega (arith, s.begun); within = h.0; expecting = (0, refl) }) h.1)

-- The state after a first read that brought a part of a message.
abbrev part_read : ℕ → List ℕ → Agent → Agent
part_read n bytes g = record g {
  buffer = write 0 bytes g.buffer;
  filled = length bytes;
  expected_length = pos n;
}

settle-part :
    (v : Server) (continue : ℕ → Agent → Outcome) (filled expected : ℕ) (g : Agent)
    → filled < expected
    → settle v continue filled expected g
      ≡ keep (record g { filled = filled; expected_length = pos expected }) []
unfolding settle
settle-part v continue filled expected g h =
    let part : leb expected filled && ltb 0 expected ≡ false = ground arith in rw part

first_read-part :
    (v : Server) (fuel res n : ℕ) (g : Agent)
    → 4 ≤ res
    → g.filled + res < n
    → length_of g.buffer ≡ some n
    → first_read v fuel res g
      ≡ keep (record g { filled = g.filled + res; expected_length = pos n }) []
unfolding first_read
first_read-part v fuel res n g h k known =
    let enough : ltb res 4 ≡ false = ground arith in
    rw (enough, known, first_read) (settle-part v (again v fuel) (g.filled + res) n g k)

first_part :
    (v : Server) (fuel n x : ℕ) (bytes : List ℕ) (g : Agent)
    → g.filled ≡ 0
    → g.expected_length ≡ negsuc 0
    → 4 < length (x ∷ bytes)
    → length (x ∷ bytes) < n
    → length_of (write 0 (x ∷ bytes) g.buffer) ≡ some n
    → handle_agent v fuel (got (x ∷ bytes)) g ≡ keep (part_read n (x ∷ bytes) g) []
unfolding handle_agent
first_part v fuel n x bytes g z e four part known =
    let room : (g.filled == agent_recv_buffer_length) ≡ false = ground arith in
    let g' = record g { buffer = write 0 (x ∷ bytes) g.buffer } in
    let total : g.filled + length (x ∷ bytes) ≡ length (x ∷ bytes) = omega (arith, z) in
    rw room (
      ap (λ e. receive v fuel (x ∷ bytes) e g) e
      ∙ first_read-part v fuel (length (x ∷ bytes)) n g' (omega arith) (omega arith) known
      ∙ ap (λ f. keep (record g' { filled = f; expected_length = pos n }) []) total)

-- The defect: when the first read of a connection brings more than four bytes of a message and not
-- all of it, the message is never dispatched, whatever the later reads bring.
pub split_message_lost :
    (v : Server) (fuel n x : ℕ) (bytes : List ℕ) (ws : List Wakeup) (g : Agent)
    → g.filled ≡ 0
    → g.expected_length ≡ negsuc 0
    → 4 < length (x ∷ bytes)
    → length (x ∷ bytes) < n
    → n ≤ agent_recv_buffer_length
    → length_of (write 0 (x ∷ bytes) g.buffer) ≡ some n
    → FitsAll ws (length (x ∷ bytes))
    → session v (suc fuel) (got (x ∷ bytes) ∷ ws) g ≡ []
unfolding session
split_message_lost v fuel n x bytes ws g z e four part small known fits =
    rw (first_part v (suc fuel) n x bytes g z e four part known, session)
      (stuck_forever v fuel ws (part_read n (x ∷ bytes) g)
        (record { begun = four; within = omega arith; expecting = (n, refl) }) fits)
