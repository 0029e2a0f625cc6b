-- ===== src/Monitoring/Session.antt =====
-- `monitoring_session_run` of cheops-monitoring.c: the callbacks along a dotted path.
use cheops_ng.Prelude.{ℕ, List, [], ◌∷◌, ◌++◌, Option, none, some, ◌==◌, if◌then◌else◌}
use cheops_ng.Prelude.Decimal.{atoi}
use cheops_ng.Monitoring.Nodes.{Tree, monitoring_node_find_toplevel, monitoring_node_find}

-- The texts of errors: those of the code, and those of a callback by their addresses.
pub data Error : Type 0 where
  ran_out_of_memory : Error
  toplevel_not_found : Error
  not_found : Error
  other : ℕ → Error

-- `monitoring_session`; the user, the action and the argument are addresses.
pub record Session : Type 0 where
  pub id : Option (List ℕ)
  pub host : ℕ
  pub user : ℕ
  pub action : ℕ
  pub state : ℕ
  pub error : Option Error
  pub seconds : ℕ
  pub arg : ℕ

abbrev pub monitor_state_ok : ℕ
monitor_state_ok = 0

abbrev pub monitor_state_error : ℕ
monitor_state_error = 3

-- A token, unless it is empty, in front of the others.
abbrev pub emit : List ℕ → List (List ℕ) → List (List ℕ)
emit [] rest = rest
emit (c ∷ it) rest = (c ∷ it) ∷ rest

-- What strtok_r() returns, call by call, for the delimiter '.'; `it` is what it has of a token.
unfoldable pub tokens : List ℕ → List ℕ → List (List ℕ)
tokens it [] = emit it []
tokens it (c ∷ l) =
    let next = tokens [] l in
    let longer = tokens (it ++ (c ∷ [])) l in if c == 46 then emit it next else longer

-- Where the loop looks for a number: at the top, or among the children of the last node.
abbrev pub find_from : Option ℕ → ℕ → Tree → Option ℕ
find_from none value t = monitoring_node_find_toplevel value t
find_from (some m) value t = monitoring_node_find m value t

abbrev pub missing : Option ℕ → Error
missing none = toplevel_not_found
missing (some m) = not_found

abbrev pub failed : Error → Session → Session
failed e x = record x { error = some e; state = monitor_state_error }

-- The callbacks change the session alone; the address of a callback that is NULL is a fault.
module _ (callback : ℕ → ℕ → Session → Session) (t : Tree) where
  abbrev pub call_node : ℕ → Session → Option Session
  call_node m x = if (t.node m).callback == 0 then none else some (callback (t.node m).callback m x)

  -- The loop over the tokens that are left, with the last node.
  unfoldable pub run_tokens : Option ℕ → List (List ℕ) → Session → Option (ℕ × Session)
  unfolding atoi monitoring_node_find_toplevel monitoring_node_find
  run_tokens m [] x = some (x.state, x)
  run_tokens m (it ∷ its) x = elim (find_from m (atoi it) t) [
    | none ↦ some (monitor_state_error, failed (missing m) x)
    | some c ↦ elim (call_node c x) [ none ↦ none | some y ↦ run_tokens (some c) its y ]
  ]

  -- A session that is not null.
  unfoldable pub run_session : Session → Option (ℕ × Session)
  unfolding tokens run_tokens
  run_session x =
      let started = record x { state = monitor_state_ok } in
      elim x.id [
        | none ↦ some (monitor_state_error, failed ran_out_of_memory started)
        | some id ↦ run_tokens none (tokens [] id) started
      ]

  unfoldable pub monitoring_session_run : Option Session → Option (ℕ × Option Session)
  unfolding run_session
  monitoring_session_run none = some (monitor_state_error, none)
  monitoring_session_run (some x) = elim (run_session x) [
    | none ↦ none
    | some (result, y) ↦ some (result, some y)
  ]

-- `monitoring_session_new`.
unfoldable pub monitoring_session_new : Option (List ℕ) → Session
monitoring_session_new id = record {
  id = some (elim id [ none ↦ [] | some s ↦ s ]);
  host = 0;
  user = 0;
  action = 0;
  state = 0;
  error = none;
  seconds = 0;
  arg = 0;
}
