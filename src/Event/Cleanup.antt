-- ===== src/Event/Cleanup.antt =====
-- The end of agents: each is closed, taken off the watch and freed once.
use cheops_ng.Prelude.{
  ℕ, zero, suc, ◌<◌, ◌≡◌, refl, Bool, List, [], ◌∷◌, none, some, ◌==◌, if◌then◌else◌, arith, length,
}
use cheops_ng.Prelude.Int.{ℤ}
use cheops_ng.Event.Agents.{Peer, Peers, chk_agent, unlink, release, destroy_agent, cleanup}

-- An agent that is not in the list, such as one destroyed before, is left alone.
pub destroy-gone :
    (has_name : Bool) (a : ℕ) (s : Peers)
    → chk_agent a s.agents ≡ none
    → destroy_agent has_name a s ≡ s
unfolding destroy_agent
destroy-gone has_name a s h = rw (h, destroy_agent)

-- Addresses, sockets and watches in the order in which a walk over the list puts them away.
abbrev addresses : List Peer → List ℕ → List ℕ
addresses [] done = done
addresses (p ∷ ps) done = addresses ps (p.address ∷ done)

abbrev sockets : List Peer → List ℤ → List ℤ
sockets [] done = done
sockets (p ∷ ps) done = sockets ps (p.socket ∷ done)

abbrev watches : List Peer → List ℕ → List ℕ
watches [] done = done
watches (p ∷ ps) done = watches ps (if p.watch == 0 then done else p.watch ∷ done)

destroy-head :
    (has_name : Bool) (p : Peer) (ps : List Peer) (s : Peers)
    → s.agents ≡ p ∷ ps
    → destroy_agent has_name p.address s ≡ record (release has_name p s) { agents = ps }
unfolding destroy_agent chk_agent unlink
destroy-head has_name p ps s e = rw e (ground arith)

-- What a list of agents leaves behind.
pub record IsCleaned (s s' : Peers) : Type 0 where
  pub none_left : s'.agents ≡ []
  pub closed : s'.closed ≡ sockets s.agents s.closed
  pub unwatched : s'.unwatched ≡ watches s.agents s.unwatched
  pub freed : s'.freed ≡ addresses s.agents s.freed

cleanup_list :
    (has_name : Bool) (fuel : ℕ) (ps : List Peer) (s : Peers)
    → s.agents ≡ ps
    → length ps < fuel
    → (s' : Peers) × (cleanup has_name fuel s ≡ some s')
      × (s'.agents ≡ [])
      × (s'.closed ≡ sockets ps s.closed)
      × (s'.unwatched ≡ watches ps s.unwatched)
      × (s'.freed ≡ addresses ps s.freed)
unfolding cleanup
cleanup_list has_name zero ps s e h = absurd (omega arith)
cleanup_list has_name (suc fuel) [] s e h = (s, simp (e, cleanup), e, refl, refl, refl)
cleanup_list has_name (suc fuel) (p ∷ ps) s e h =
    let (s', r, a, c, u, f) =
      cleanup_list has_name fuel ps (record (release has_name p s) { agents = ps }) refl
        (omega arith) in
    (s', rw (e, cleanup, destroy-head has_name p ps s e, r), a, c, u, f)

-- `event_cleanup` ends: no agent is left, and each socket was closed once, each watch removed once,
-- and each agent freed once, in the order of the list.
pub cleanup-IsCleaned :
    (has_name : Bool) (fuel : ℕ) (s : Peers)
    → length s.agents < fuel
    → (s' : Peers) × (cleanup has_name fuel s ≡ some s') × IsCleaned s s'
cleanup-IsCleaned has_name fuel s h =
    let (s', r, a, c, u, f) = cleanup_list has_name fuel s.agents s refl h in
    (s', r, record { none_left = a; closed = c; unwatched = u; freed = f })
