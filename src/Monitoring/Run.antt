-- ===== src/Monitoring/Run.antt =====
-- What `monitoring_session_run` does with the path of a node, and at a token without a node.
use cheops_ng.Prelude.{ℕ, ◌≡◌, refl, ◌∙◌, ap, sym, subst, List, [], ◌∷◌, ◌++◌, Option, none, some}
use cheops_ng.Prelude.Decimal.{atoi}
use mathlib.Core.List.{append-nil}
use cheops_ng.Monitoring.Nodes.{Tree}
use cheops_ng.Monitoring.Session.{
  Session, tokens, find_from, missing, failed, call_node, run_tokens, run_session,
  monitoring_session_run, monitor_state_ok, monitor_state_error,
}
use cheops_ng.Monitoring.Reach.{Reach, Reach-IsTree}
use cheops_ng.Monitoring.Placed.{Placed, Placed-HasPath, Leads, last_from}

module _ (callback : ℕ → ℕ → Session → Session) (t : Tree) where
  -- The callbacks of the nodes, in their order.
  abbrev pub visit : List ℕ → Session → Option Session
  visit [] x = some x
  visit (c ∷ l) x = elim (call_node callback t c x) [ none ↦ none | some y ↦ visit l y ]

  -- The loop goes on after the nodes.
  abbrev pub go_on : Option ℕ → List (List ℕ) → Option Session → Option (ℕ × Session)
  go_on m rest none = none
  go_on m rest (some y) = run_tokens callback t m rest y

  -- The loop at a token, with what was found for it, and with what its callback left.
  abbrev at_found : Option ℕ → Option ℕ → List (List ℕ) → Session → Option (ℕ × Session)
  at_found m none its x = some (monitor_state_error, failed (missing m) x)
  at_found m (some c) its x = go_on (some c) its (call_node callback t c x)

  run_tokens_cons :
      (m : Option ℕ) (it : List ℕ) (its : List (List ℕ)) (x : Session)
      → run_tokens callback t m (it ∷ its) x ≡ at_found m (find_from m (atoi it) t) its x
  unfolding run_tokens
  run_tokens_cons m it its x =
      elim (find_from m (atoi it) t)
        as (λ o.
          (elim o [
            | none ↦ some (monitor_state_error, failed (missing m) x)
            | some c ↦ elim (call_node callback t c x) [
              | none ↦ none
              | some y ↦ run_tokens callback t (some c) its y
            ]
          ])
          ≡ at_found m o its x) [
            | none ↦ refl
            | some c ↦
                elim (call_node callback t c x)
                  as (λ o.
                    (elim o [ none ↦ none | some y ↦ run_tokens callback t (some c) its y ])
                    ≡ go_on (some c) its o) [ none ↦ refl | some y ↦ refl ]
          ]

  run_tokens_lem :
      (m : Option ℕ) (its rest : List (List ℕ)) (l : List ℕ) (x : Session)
      → Leads t m its l
      → run_tokens callback t m (its ++ rest) x ≡ go_on (last_from m l) rest (visit l x)
  unfolding run_tokens
  run_tokens_lem m [] rest [] x h = refl
  run_tokens_lem m [] rest (c ∷ l) x h = absurd h
  run_tokens_lem m (it ∷ its) rest [] x h = absurd h
  run_tokens_lem m (it ∷ its) rest (c ∷ l) x h =
      run_tokens_cons m it (its ++ rest) x
      ∙ ap (λ (o : Option ℕ). at_found m o (its ++ rest) x) h.0
      ∙ (elim (call_node callback t c x)
          as (λ o.
            go_on (some c) (its ++ rest) o
            ≡ go_on (last_from (some c) l) rest (elim o [ none ↦ none | some y ↦ visit l y ])) [
              | none ↦ refl
              | some y ↦ run_tokens_lem (some c) its rest l y h.1
            ])

  -- What the call returns when the loop ends, and when it does not find a node.
  abbrev pub ended : Option Session → Option (ℕ × Option Session)
  ended none = none
  ended (some y) = some (y.state, some y)

  abbrev pub not_there : Option ℕ → Option Session → Option (ℕ × Option Session)
  not_there m none = none
  not_there m (some y) = some (monitor_state_error, some (failed (missing m) y))

  abbrev pub start_of : List ℕ → Session → Session
  start_of s x = record x { id = some s; state = monitor_state_ok }

  -- The call with a string, in the terms of its tokens.
  abbrev returned : Option (ℕ × Session) → Option (ℕ × Option Session)
  returned none = none
  returned (some (result, y)) = some (result, some y)

  run-tokens :
      (s : List ℕ) (x : Session)
      → monitoring_session_run callback t (some (record x { id = some s }))
        ≡ returned (run_tokens callback t none (tokens [] s) (start_of s x))
  unfolding monitoring_session_run run_session
  run-tokens s x =
      elim (run_tokens callback t none (tokens [] s) (start_of s x))
        as (λ o. (elim o [ none ↦ none | some (result, y) ↦ some (result, some y) ]) ≡ returned o) [
          | none ↦ refl
          | some (result, y) ↦ refl
        ]

  all_led :
      (s : List ℕ) (l : List ℕ) (x : Session)
      → Leads t none (tokens [] s) l
      → monitoring_session_run callback t (some (record x { id = some s }))
        ≡ ended (visit l (start_of s x))
  unfolding run_tokens
  all_led s l x h =
      run-tokens s x
      ∙ ap (λ (its : List (List ℕ)). returned (run_tokens callback t none its (start_of s x)))
          (sym (append-nil (tokens [] s)))
      ∙ ap returned (run_tokens_lem none (tokens [] s) [] l (start_of s x) h)
      ∙ (elim (visit l (start_of s x))
          as (λ o. returned (go_on (last_from none l) [] o) ≡ ended o) [
            | none ↦ refl
            | some y ↦ refl
          ])

  -- The first tokens lead to nodes, and the next one to none.
  pub one_missing :
      (s : List ℕ) (x : Session) (its rest : List (List ℕ)) (it : List ℕ) (l : List ℕ)
      → tokens [] s ≡ its ++ (it ∷ rest)
      → Leads t none its l
      → find_from (last_from none l) (atoi it) t ≡ none
      → monitoring_session_run callback t (some (record x { id = some s }))
        ≡ not_there (last_from none l) (visit l (start_of s x))
  one_missing s x its rest it l split leads absent =
      run-tokens s x
      ∙ ap (λ (all : List (List ℕ)). returned (run_tokens callback t none all (start_of s x))) split
      ∙ ap returned (run_tokens_lem none its (it ∷ rest) l (start_of s x) leads)
      ∙ (elim (visit l (start_of s x))
          as (λ o.
            returned (go_on (last_from none l) (it ∷ rest) o) ≡ not_there (last_from none l) o) [
              | none ↦ refl
              | some y ↦ ap returned (
                  run_tokens_cons (last_from none l) it rest y
                  ∙ ap (λ (o : Option ℕ). at_found (last_from none l) o rest y) absent)
            ])

  -- In a tree that calls made, of a session with the path of a node that stands below others: the
  -- callbacks of exactly these nodes are called, from the top down to the node itself, and the state
  -- that they leave is returned.
  pub monitoring_session_run-path :
      (p : ℕ) (l : List ℕ) (x : Session)
      → Reach t
      → Placed t p l
      → monitoring_session_run callback t (some (record x { id = (t.node p).path }))
        ≡ ended (visit l (record x { id = (t.node p).path; state = monitor_state_ok }))
  monitoring_session_run-path p l x r at =
      let h = Placed-HasPath t p l (Reach-IsTree t r) at in
      subst
        (λ (o : Option (List ℕ)).
          monitoring_session_run callback t (some (record x { id = o }))
          ≡ ended (visit l (record x { id = o; state = monitor_state_ok })))
        (sym h.is_path) (all_led h.path l x h.leads)
