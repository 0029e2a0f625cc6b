-- ===== src/Monitoring/Placed.antt =====
-- Where a node stands in the tree, what its path is there, and that a node that is added stands there.
use cheops_ng.Prelude.{
  update, update-same, update-cases, ℕ, ◌*◌, ◌≤◌, ◌<◌, ◌≡◌, ◌≢◌, refl, ◌∙◌, ap, sym, subst, inl,
  inr, Bool-cases, Option-cases, List, [], ◌∷◌, ◌++◌, true, ◌==◌, ◌||◌, ltb, length, length-append,
  Option, none, some, none-some, Has, Has-append, Has-snoc, All-Has, arith,
}
use cheops_ng.Prelude.Decimal.{print_int, length-print_int, atoi, atoi-print_int}
use cheops_ng.Monitoring.Nodes.{
  Node, Tree, find_id, child_path, put_child, monitoring_node_find, monitoring_node_find_toplevel,
  monitoring_node_add, path_buffer,
}
use cheops_ng.Monitoring.Session.{tokens, find_from}
use cheops_ng.Monitoring.Tokens.{tokens-print_int, tokens-child_path}
use cheops_ng.Monitoring.Tree.{IsTree}
use cheops_ng.Monitoring.Reach.{Reach, Reach-IsTree, add_cases}

-- The nodes from the top down to this one.
pub data Placed (t : Tree) : ℕ → List ℕ → Type 0 where
  at_top : {m : ℕ} → Has t.toplevel_list m → Placed t m (m ∷ [])
  below :
      {p c : ℕ} {l : List ℕ} → Placed t p l → Has (t.node p).children c → Placed t c (l ++ (c ∷ []))

-- The last node of a search.
abbrev pub last_from : Option ℕ → List ℕ → Option ℕ
last_from m [] = m
last_from m (c ∷ l) = last_from (some c) l

last_from-snoc : (m : Option ℕ) (l : List ℕ) (c : ℕ) → last_from m (l ++ (c ∷ [])) ≡ some c
last_from-snoc m [] c = refl
last_from-snoc m (x ∷ l) c = last_from-snoc (some x) l c

-- The tokens lead, one by one, to the nodes.
abbrev pub Leads : Tree → Option ℕ → List (List ℕ) → List ℕ → Type 0
Leads t m [] [] = Unit
Leads t m [] (c ∷ l) = ⊥
Leads t m (it ∷ its) [] = ⊥
Leads t m (it ∷ its) (c ∷ l) = (find_from m (atoi it) t ≡ some c) × Leads t (some c) its l

Leads-snoc :
    (t : Tree) (m : Option ℕ) (its : List (List ℕ)) (it : List ℕ) (l : List ℕ) (c : ℕ)
    → Leads t m its l
    → find_from (last_from m l) (atoi it) t ≡ some c
    → Leads t m (its ++ (it ∷ [])) (l ++ (c ∷ []))
Leads-snoc t m [] it [] c h e = (e, tt)
Leads-snoc t m [] it (x ∷ l) c h e = absurd h
Leads-snoc t m (w ∷ its) it [] c h e = absurd h
Leads-snoc t m (w ∷ its) it (x ∷ l) c h e = (h.0, Leads-snoc t (some x) its it l c h.1 e)

-- The path of a node, whose numbers lead to it, and that has 12 bytes at most for each level.
pub record HasPath (t : Tree) (p : ℕ) (l : List ℕ) : Type 0 where
  pub path : List ℕ
  pub is_path : (t.node p).path ≡ some path
  pub leads : Leads t none (tokens [] path) l
  pub last : last_from none l ≡ some p
  pub short : length path < 12 * length l

pub Placed-HasPath : (t : Tree) (p : ℕ) (l : List ℕ) → IsTree t → Placed t p l → HasPath t p l
unfolding monitoring_node_find_toplevel monitoring_node_find
Placed-HasPath t m l v (at_top h) =
    let listed = All-Has _ t.toplevel_list m v.roots h in
    let id = (t.node m).id in
    let bytes = length-print_int id in
    record {
      path = print_int id;
      is_path = All-Has _ t.toplevel_list m v.root_paths h;
      leads =
          subst (λ (its : List (List ℕ)). Leads t none its (m ∷ [])) (sym (tokens-print_int id))
            (
              ap (λ (i : ℕ). find_id t.node i t.toplevel_list) (atoi-print_int id (v.words m))
                  ∙ listed.found,
              tt,
            );
      last = refl;
      short = omega arith;
    }
Placed-HasPath t c l v (below {p = p} {l = k} q h) =
    let up = Placed-HasPath t p k v q in
    let listed = All-Has _ (t.node p).children c (v.kids p) h in
    let id = (t.node c).id in
    let bytes = length-print_int id in
    let longer = length-append k (c ∷ []) in
    let whole = length-append up.path (46 ∷ print_int id) in
    let above = up.short in
    record {
      path = child_path up.path id;
      is_path = All-Has _ (t.node p).children c (v.kid_paths p up.path up.is_path) h;
      leads =
          subst (λ (its : List (List ℕ)). Leads t none its (k ++ (c ∷ [])))
            (sym (tokens-child_path up.path id))
            (Leads-snoc t none (tokens [] up.path) (print_int id) k c up.leads (
              ap (λ (m : Option ℕ). find_from m (atoi (print_int id)) t) up.last
              ∙ ap (λ (i : ℕ). find_id t.node i (t.node p).children) (atoi-print_int id (v.words c))
              ∙ listed.found));
      last = last_from-snoc none k c;
      short = omega arith;
    }

-- A child that is added to a node of at most 40 levels, in a tree that calls made: no string that is
-- NULL is printed, and its path fits the buffer of 500 bytes.
pub monitoring_node_add_fits :
    (t : Tree) (p c : ℕ) (l : List ℕ)
    → Reach t
    → Placed t p l
    → length l ≤ 40
    → monitoring_node_add p c t ≢ none
unfolding monitoring_node_add
monitoring_node_add_fits t p c l r at levels faults = elim (Bool-cases (p == 0 || c == 0)) [
  | inl null ↦ none-some (sym (rw null at faults))
  | inr live ↦ elim (Option-cases (monitoring_node_find p (t.node c).id t)) [
    | inr (there, found) ↦ none-some (sym (rw (live, found) at faults))
    | inl new ↦
        let h = Placed-HasPath t p l (Reach-IsTree t r) at in
        let above = h.short in
        let bytes = length-print_int (t.node c).id in
        let whole = length-append h.path (46 ∷ print_int (t.node c).id) in
        let fits : ltb (length (child_path h.path (t.node c).id)) path_buffer ≡ true =
          ground (arith, above, bytes, whole, levels) in
        none-some (sym (rw (live, new, h.is_path, fits) at faults))
  ]
]

children_kept :
    (p c : ℕ) (path : List ℕ) (t : Tree) (q x : ℕ)
    → Has (t.node q).children x
    → Has ((put_child p c path t).node q).children x
children_kept p c path t q x h =
    let s : ℕ → Node = update t.node c (record (t.node c) { path = some path }) in
    let kept : (r : ℕ) → (s r).children ≡ (t.node r).children = λ r.
      update-cases (λ n. n.children ≡ (t.node r).children) t.node c _ r
        (λ e. ap (λ (y : ℕ). (t.node y).children) e) (λ e. refl) in
    update-cases (λ n. Has n.children x) s p _ q
      (λ e. Has-append (s p).children (c ∷ []) x (
        subst (λ k. Has k x) (sym (kept p))
          (subst (λ (y : ℕ). Has (t.node y).children x) (sym e) h)))
      (λ e. subst (λ k. Has k x) (sym (kept q)) h)

put_child-Placed :
    (p c : ℕ) (path : List ℕ) (t : Tree) (q : ℕ) (l : List ℕ)
    → Placed t q l
    → Placed (put_child p c path t) q l
put_child-Placed p c path t q l (at_top h) = at_top h
put_child-Placed p c path t q l (below {p = r} {l = k} up h) =
    below (put_child-Placed p c path t r k up) (children_kept p c path t r q h)

-- A child that was added stands below its parent, and every other node stands where it stood.
pub monitoring_node_add-Placed :
    (t t' : Tree) (p c : ℕ) (l : List ℕ)
    → monitoring_node_add p c t ≡ some (0, t')
    → Placed t p l
    → Placed t' c (l ++ (c ∷ [])) × ((q : ℕ) (k : List ℕ) → Placed t q k → Placed t' q k)
monitoring_node_add-Placed t t' p c l e at = elim (add_cases p c 0 t t' e) [
  | inl (bad, same) ↦ absurd (omega arith)
  | inr (good, a) ↦
      let path = child_path a.path (t.node c).id in
      let s : ℕ → Node = update t.node c (record (t.node c) { path = some path }) in
      let last : Has ((put_child p c path t).node p).children c =
        subst (λ (n : Node). Has n.children c) (sym (update-same s p _))
          (Has-snoc (s p).children c) in
      subst
        (λ (x : Tree).
          Placed x c (l ++ (c ∷ [])) × ((q : ℕ) (k : List ℕ) → Placed t q k → Placed x q k))
        a.after (below (put_child-Placed p c path t p l at) last, put_child-Placed p c path t)
]
