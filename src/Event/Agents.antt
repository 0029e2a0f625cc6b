-- ===== src/Event/Agents.antt =====
-- The list of agents of event.c: `chk_agent`, `event_destroy_agent` and `event_cleanup`.
use cheops_ng.Prelude.{
  ℕ, zero, suc, Bool, false, List, [], ◌∷◌, Option, none, some, ◌==◌, if◌then◌else◌,
}
use cheops_ng.Prelude.Int.{ℤ}

-- The fields of `agent` that its end needs, with its address; the id of the watch is 0 for NULL.
-- The link `next` is the order of the list.
pub record Peer : Type 0 where
  pub address : ℕ
  pub socket : ℤ
  pub watch : ℕ

-- `agents` and `our_local_agent` (0 for NULL), with what was done so far, the last first: the
-- sockets closed, the watches handed to `cheops_io_remove`, and the agents freed.
pub record Peers : Type 0 where
  pub agents : List Peer
  pub our_local_agent : ℕ
  pub closed : List ℤ
  pub unwatched : List ℕ
  pub freed : List ℕ
  pub socket_file : Bool

-- `chk_agent`
unfoldable pub chk_agent : ℕ → List Peer → Option Peer
chk_agent a [] = none
chk_agent a (p ∷ ps) = let found = chk_agent a ps in if p.address == a then some p else found

-- The loop that unlinks the agent.
unfoldable pub unlink : ℕ → List Peer → List Peer
unlink a [] = []
unlink a (p ∷ ps) = let rest = unlink a ps in if p.address == a then ps else p ∷ rest

-- What is done to an agent that was in the list. The file of the local socket is removed when its
-- name is known.
abbrev pub release : Bool → Peer → Peers → Peers
release has_name p s = record {
  agents = unlink p.address s.agents;
  our_local_agent = if p.address == s.our_local_agent then 0 else s.our_local_agent;
  closed = p.socket ∷ s.closed;
  unwatched = if p.watch == 0 then s.unwatched else p.watch ∷ s.unwatched;
  freed = p.address ∷ s.freed;
  socket_file =
      if p.address == s.our_local_agent
      then (if has_name then false else s.socket_file)
      else s.socket_file;
}

unfoldable pub destroy_agent : Bool → ℕ → Peers → Peers
unfolding chk_agent unlink
destroy_agent has_name a s = elim (chk_agent a s.agents) [
  | none ↦ s
  | some p ↦ release has_name p s
]

-- The loop of `event_cleanup`, with fuel: `none` if the fuel runs out.
unfoldable pub cleanup : Bool → ℕ → Peers → Option Peers
unfolding destroy_agent
cleanup has_name zero s = none
cleanup has_name (suc fuel) s = elim s.agents [
  | [] ↦ some s
  | p ∷ _ ↦ cleanup has_name fuel (destroy_agent has_name p.address s)
]
