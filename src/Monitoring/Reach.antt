-- ===== src/Monitoring/Reach.antt =====
-- Every tree that the calls of cheops-monitoring.c make.
use cheops_ng.Prelude.{
  update-same, update-cases, ℕ, ◌^◌, ◌<◌, ◌≡◌, ◌≢◌, refl, ◌∙◌, ap, sym, subst, ◌⊎◌, inl, inr,
  Bool-cases, Option-cases, List, [], ◌∷◌, ◌==◌, ◌||◌, ltb, length, Option, none, some, some_eq,
  none-some, All, arith,
}
use cheops_ng.Prelude.Decimal.{print_int}
use cheops_ng.Monitoring.Nodes.{
  Node, Tree, no_tree, find_id, child_path, put_child, put_toplevel, monitoring_node_find,
  monitoring_node_find_toplevel, monitoring_node_new, monitoring_node_add_toplevel,
  monitoring_node_add, path_buffer,
}
use cheops_ng.Monitoring.Tree.{IsTree, no_tree-IsTree, find_id-cong}
use cheops_ng.Monitoring.Kept.{
  named, named-IsTree, append_root-IsTree, append_child-IsTree, monitoring_node_new-IsTree,
}

ids_kept : (m : ℕ) (path : List ℕ) (t : Tree) (q : ℕ) → ((named m path t).node q).id ≡ (t.node q).id
ids_kept m path t q =
    update-cases (λ x. x.id ≡ (t.node q).id) t.node m _ q (λ e. ap (λ (r : ℕ). (t.node r).id) e)
      (λ e. refl)

All-every {ℓ κ} : {A : Type ℓ} (P : A → Type κ) (l : List A) → ((a : A) → P a) → All P l
All-every P [] h = tt
All-every P (x ∷ l) h = (h x, All-every P l h)

-- The search for the id of the node that was named is as before.
find_id-named :
    (m : ℕ) (path : List ℕ) (t : Tree) (l : List ℕ)
    → find_id (named m path t).node ((named m path t).node m).id l ≡ find_id t.node (t.node m).id l
find_id-named m path t l =
    ap (λ (id : ℕ). find_id (named m path t).node id l) (ids_kept m path t m)
    ∙ find_id-cong t.node (named m path t).node (t.node m).id l (All-every _ l (ids_kept m path t))

path-named : (m : ℕ) (path : List ℕ) (t : Tree) → ((named m path t).node m).path ≡ some path
path-named m path t = ap (λ (x : Node). x.path) (update-same t.node m _)

pub put_toplevel-IsTree :
    (m : ℕ) (t : Tree)
    → 0 < m
    → m < t.next
    → (t.node m).path ≡ none
    → monitoring_node_find_toplevel (t.node m).id t ≡ none
    → IsTree t
    → IsTree (put_toplevel m t)
unfolding monitoring_node_find_toplevel
put_toplevel-IsTree m t live below bare new v =
    let path = print_int (t.node m).id in
    append_root-IsTree m (named m path t) live below (find_id-named m path t t.toplevel_list ∙ new)
      (path-named m path t ∙ ap (λ (id : ℕ). some (print_int id)) (sym (ids_kept m path t m)))
      (named-IsTree m path t below bare v)

pub put_child-IsTree :
    (p c : ℕ) (path : List ℕ) (t : Tree)
    → 0 < c
    → c < t.next
    → (t.node c).path ≡ none
    → (t.node p).path ≡ some path
    → monitoring_node_find p (t.node c).id t ≡ none
    → IsTree t
    → IsTree (put_child p c (child_path path (t.node c).id) t)
unfolding monitoring_node_find
put_child-IsTree p c path t live below bare has_path new v =
    let at = child_path path (t.node c).id in
    let s = named c at t in
    let other : c ≢ p = λ e. none-some (sym bare ∙ ap (λ (q : ℕ). (t.node q).path) e ∙ has_path) in
    let same : s.node p ≡ t.node p =
      update-cases (λ x. x ≡ t.node p) t.node c _ p (λ e. absurd (other e)) (λ e. refl) in
    append_child-IsTree p c path s live below
      (ap (λ (n : Node). find_id s.node (s.node c).id n.children) same
        ∙ find_id-named c at t (t.node p).children
        ∙ new)
      (ap (λ (n : Node). n.path) same ∙ has_path)
      (path-named c at t ∙ ap (λ (id : ℕ). some (child_path path id)) (sym (ids_kept c at t c)))
      (named-IsTree c at t below bare v)

-- What a call of `monitoring_node_add_toplevel` comes to.
add_toplevel_cases :
    (m : ℕ) (t : Tree)
    → (monitoring_node_add_toplevel m t ≡ (1, t))
      ⊎ ((monitoring_node_add_toplevel m t ≡ (0, put_toplevel m t))
          × (0 < m)
          × (monitoring_node_find_toplevel (t.node m).id t ≡ none))
unfolding monitoring_node_add_toplevel
add_toplevel_cases m t = elim (Bool-cases (m == 0)) [
  | inl null ↦ inl (rw null refl)
  | inr live ↦ elim (Option-cases (monitoring_node_find_toplevel (t.node m).id t)) [
    | inl new ↦ inr (rw (live, new) refl, ground (arith, live), new)
    | inr (there, found) ↦ inl (rw (live, found) refl)
  ]
]

-- A child that was added: the parent's path, the child, and the tree that is left.
pub record IsAdded (p c : ℕ) (t t' : Tree) : Type 0 where
  pub path : List ℕ
  pub has_path : (t.node p).path ≡ some path
  pub live : 0 < c
  pub new : monitoring_node_find p (t.node c).id t ≡ none
  pub after : put_child p c (child_path path (t.node c).id) t ≡ t'

pub add_cases :
    (p c r : ℕ) (t t' : Tree)
    → monitoring_node_add p c t ≡ some (r, t')
    → ((r ≡ 1) × (t ≡ t')) ⊎ ((r ≡ 0) × IsAdded p c t t')
unfolding monitoring_node_add
add_cases p c r t t' e = elim (Bool-cases (p == 0 || c == 0)) [
  | inl null ↦
      let f = some_eq (rw null at e) in
      inl (ap (λ (x : ℕ × Tree). x.0) (sym f), ap (λ (x : ℕ × Tree). x.1) f)
  | inr live ↦ elim (Option-cases (monitoring_node_find p (t.node c).id t)) [
    | inr (there, found) ↦
        let f = some_eq (rw (live, found) at e) in
        inl (ap (λ (x : ℕ × Tree). x.0) (sym f), ap (λ (x : ℕ × Tree). x.1) f)
    | inl new ↦ elim (Option-cases (t.node p).path) [
      | inl bare ↦ absurd (none-some (rw (live, new, bare) at e))
      | inr (path, has_path) ↦
          elim (Bool-cases (ltb (length (child_path path (t.node c).id)) path_buffer)) [
            | inr long ↦ absurd (none-some (rw (live, new, has_path, long) at e))
            | inl fits ↦
                let f = some_eq (rw (live, new, has_path, fits) at e) in
                inr (
                  ap (λ (x : ℕ × Tree). x.0) (sym f),
                  record {
                    path = path;
                    has_path = has_path;
                    live = ground (arith, live);
                    new = new;
                    after = ap (λ (x : ℕ × Tree). x.1) f;
                  },
                )
          ]
    ]
  ]
]

monitoring_node_add_toplevel-IsTree :
    (m : ℕ) (t : Tree)
    → m < t.next
    → (t.node m).path ≡ none
    → IsTree t
    → IsTree (monitoring_node_add_toplevel m t).1
monitoring_node_add_toplevel-IsTree m t below bare v = elim (add_toplevel_cases m t) [
  | inl same ↦ subst (λ (x : ℕ × Tree). IsTree x.1) (sym same) v
  | inr (added, live, new) ↦
      subst (λ (x : ℕ × Tree). IsTree x.1) (sym added)
        (put_toplevel-IsTree m t live below bare new v)
]

monitoring_node_add-IsTree :
    (p c r : ℕ) (t t' : Tree)
    → c < t.next
    → (t.node c).path ≡ none
    → monitoring_node_add p c t ≡ some (r, t')
    → IsTree t
    → IsTree t'
monitoring_node_add-IsTree p c r t t' below bare e v = elim (add_cases p c r t t' e) [
  | inl (bad, same) ↦ subst IsTree same v
  | inr (good, a) ↦
      subst IsTree a.after (put_child-IsTree p c a.path t a.live below bare a.has_path a.new v)
]

-- The trees that calls make in which a node that is added is one that was made, and is added once.
pub data Reach : Tree → Type 0 where
  start : Reach no_tree
  make :
      {t : Tree} (name : Option (List ℕ)) (id cb : ℕ)
      → id < 2 ^ 32
      → Reach t
      → Reach (monitoring_node_new name id cb t).1
  top :
      {t : Tree} (m : ℕ)
      → m < t.next
      → (t.node m).path ≡ none
      → Reach t
      → Reach (monitoring_node_add_toplevel m t).1
  child :
      {t t' : Tree} (p c r : ℕ)
      → c < t.next
      → (t.node c).path ≡ none
      → monitoring_node_add p c t ≡ some (r, t')
      → Reach t
      → Reach t'

-- In every such tree, siblings have distinct ids and are found by them, and each node's path is that
-- of its parent, a dot, and its id.
pub Reach-IsTree : (t : Tree) → Reach t → IsTree t
Reach-IsTree t start = no_tree-IsTree
Reach-IsTree t (make {t = s} name id cb h r) =
    monitoring_node_new-IsTree name id cb s h (Reach-IsTree s r)
Reach-IsTree t (top {t = s} m below bare r) =
    monitoring_node_add_toplevel-IsTree m s below bare (Reach-IsTree s r)
Reach-IsTree t (child {t = s} {t' = s'} p c k below bare e r) =
    monitoring_node_add-IsTree p c k s s' below bare e (Reach-IsTree s r)
