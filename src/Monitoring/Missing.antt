-- ===== src/Monitoring/Missing.antt =====
-- What `monitoring_session_run` does where a node of the path is missing.
use cheops_ng.Prelude.{
  ℕ, ◌<◌, ◌^◌, ◌≡◌, ◌≢◌, refl, ◌∙◌, ap, sym, subst, some_eq, All, arith, List, [], ◌∷◌, ◌++◌,
  Option, none, some,
}
use cheops_ng.Prelude.Decimal.{atoi, atoi-print_int, print_int}
use mathlib.Core.List.{append_assoc}
use cheops_ng.Monitoring.Nodes.{
  Tree, find_id, child_path, monitoring_node_find, monitoring_node_find_toplevel,
}
use cheops_ng.Monitoring.Tokens.{IsTail, tokens-tail, tokens-print_int, tokens-child_path}
use cheops_ng.Monitoring.Session.{
  Session, Error, not_found, toplevel_not_found, tokens, find_from, monitoring_session_run,
}
use cheops_ng.Monitoring.Reach.{Reach, Reach-IsTree}
use cheops_ng.Monitoring.Placed.{Placed, Placed-HasPath, Leads, last_from}
use cheops_ng.Monitoring.Run.{visit, not_there, one_missing}

-- No node of the list has the id.
abbrev pub Lacks : Tree → ℕ → List ℕ → Type 0
Lacks t n l = All (λ c. (t.node c).id ≢ n) l

find_id-Lacks : (t : Tree) (n : ℕ) (l : List ℕ) → Lacks t n l → find_id t.node n l ≡ none
unfolding find_id
find_id-Lacks t n [] h = refl
find_id-Lacks t n (c ∷ l) h = ground (arith, h.0, find_id-Lacks t n l h.1)

-- What the callbacks left, with the error, and the state 3 that is returned for it.
abbrev pub refused : Error → Option Session → Option (ℕ × Option Session)
refused e none = none
refused e (some y) = some (3, some (record y { error = some e; state = 3 }))

module _ (callback : ℕ → ℕ → Session → Session) (t : Tree) where
  -- In a tree that calls made, of a session with the path of a node below others, a dot and the number
  -- n < 2 ^ 32, then nothing or a dot and anything: where no child of the node has the id n, the
  -- callbacks of the nodes of the path are called, from the top down, and then no other; the error of
  -- the session is that of a child that was not found, whatever they left there, and its state and
  -- what is returned are 3.
  pub monitoring_session_run-not_found :
      (p n : ℕ) (l path more : List ℕ) (x : Session)
      → Reach t
      → Placed t p l
      → (t.node p).path ≡ some path
      → n < 2 ^ 32
      → Lacks t n (t.node p).children
      → IsTail more
      → monitoring_session_run callback t
          (some (record x { id = some (child_path path n ++ more) }))
        ≡ refused not_found
            (visit callback t l (record x { id = some (child_path path n ++ more); state = 0 }))
  unfolding monitoring_node_find
  monitoring_session_run-not_found p n l path more x r at is_path word lacks tail =
      let h = Placed-HasPath t p l (Reach-IsTree t r) at in
      let (rest, cut) = tokens-tail (child_path path n) more tail in
      let same : h.path ≡ path = some_eq (sym h.is_path ∙ is_path) in
      let leads : Leads t none (tokens [] path) l =
        subst (λ s. Leads t none (tokens [] s) l) same h.leads in
      let split : tokens [] (child_path path n ++ more) ≡ tokens [] path ++ (print_int n ∷ rest) =
        cut
        ∙ ap (λ its. its ++ rest) (tokens-child_path path n)
        ∙ append_assoc (tokens [] path) (print_int n ∷ []) rest in
      let absent : find_from (last_from none l) (atoi (print_int n)) t ≡ none =
        ap (λ (m : Option ℕ). find_from m (atoi (print_int n)) t) h.last
        ∙ ap (λ (i : ℕ). find_id t.node i (t.node p).children) (atoi-print_int n word)
        ∙ find_id-Lacks t n (t.node p).children lacks in
      let start : Session = record x { id = some (child_path path n ++ more); state = 0 } in
      one_missing callback t (child_path path n ++ more) x (tokens [] path) rest (print_int n) l
        split leads absent
      ∙ ap (λ (m : Option ℕ). not_there callback t m (visit callback t l start)) h.last
      ∙ (elim (visit callback t l start)
          as (λ o. not_there callback t (some p) o ≡ refused not_found o) [
            | none ↦ refl
            | some y ↦ refl
          ])

  -- Of a session with a number n < 2 ^ 32, then nothing or a dot and anything, where no node at the top
  -- has the id n: no callback is called, the error of the session is that of a node at the top that was
  -- not found, and its state and what is returned are 3.
  pub monitoring_session_run-toplevel_not_found :
      (n : ℕ) (more : List ℕ) (x : Session)
      → n < 2 ^ 32
      → Lacks t n t.toplevel_list
      → IsTail more
      → monitoring_session_run callback t (some (record x { id = some (print_int n ++ more) }))
        ≡ some (
          3,
          some (record x {
            id = some (print_int n ++ more);
            state = 3;
            error = some toplevel_not_found;
          }),
        )
  unfolding monitoring_node_find_toplevel
  monitoring_session_run-toplevel_not_found n more x word lacks tail =
      let (rest, cut) = tokens-tail (print_int n) more tail in
      one_missing callback t (print_int n ++ more) x [] rest (print_int n) []
        (cut ∙ ap (λ its. its ++ rest) (tokens-print_int n)) tt
        (ap (λ (i : ℕ). find_id t.node i t.toplevel_list) (atoi-print_int n word)
          ∙ find_id-Lacks t n t.toplevel_list lacks)
