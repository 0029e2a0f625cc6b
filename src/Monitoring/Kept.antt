-- ===== src/Monitoring/Kept.antt =====
-- Each operation of cheops-monitoring.c keeps the tree as it should be.
use cheops_ng.Prelude.{
  update, update-cases, ℕ, ◌+◌, ◌^◌, ◌<◌, ◌≡◌, refl, ◌∙◌, ap, sym, subst, List, [], ◌∷◌, ◌++◌,
  Option, none, some, some_eq, none-some, All, All-map, All-append, All-zip, arith,
}
use cheops_ng.Prelude.Decimal.{print_int}
use cheops_ng.Monitoring.Nodes.{Node, Tree, find_id, child_path, monitoring_node_new}
use cheops_ng.Monitoring.Tree.{IsListed, IsTree, Listed-snoc, Listed-cong}

-- Nodes that have a path and its path in both tables.
abbrev HasPath : (ℕ → Node) → (Node → List ℕ) → ℕ → Type 0
HasPath node path c = (node c).path ≡ some (path (node c))

pub monitoring_node_new-IsTree :
    (name : Option (List ℕ)) (id cb : ℕ) (t : Tree)
    → id < 2 ^ 32
    → IsTree t
    → IsTree (monitoring_node_new name id cb t).1
unfolding monitoring_node_new
monitoring_node_new-IsTree name id cb t h v =
    let n : Node = record { name = name; id = id; callback = cb; path = none; children = [] } in
    let node' : ℕ → Node = update t.node t.next n in
    let same_id : (p : ℕ) → p < t.next → (node' p).id ≡ (t.node p).id = λ p b.
      update-cases (λ x. x.id ≡ (t.node p).id) t.node t.next n p (λ e. absurd (omega arith))
        (λ e. refl) in
    let kept : (path : Node → List ℕ) (l : List ℕ)
        → All (IsListed t.node t.next l) l
        → All (HasPath t.node path) l
        → All (HasPath node' path) l =
      λ path l k.
        All-zip (IsListed t.node t.next l) _ _ l
          (λ c b e.
            update-cases (λ x. x.path ≡ some (path x)) t.node t.next n c
              (λ i. let bb = b.below in absurd (omega arith)) (λ i. e))
          k in
    record {
      roots =
          Listed-cong t.node node' t.next (t.next + 1) t.toplevel_list same_id (omega arith)
            v.roots;
      root_paths = kept (λ x. print_int x.id) t.toplevel_list v.roots v.root_paths;
      kids = λ p.
          update-cases (λ x. All (IsListed node' (t.next + 1) x.children) x.children) t.node t.next
            n p (λ e. tt)
            (λ e.
              Listed-cong t.node node' t.next (t.next + 1) (t.node p).children same_id (omega arith)
                (v.kids p));
      kid_paths = λ p path.
          update-cases
            (λ x. x.path ≡ some path → All (HasPath node' (λ y. child_path path y.id)) x.children)
            t.node t.next n p (λ e f. tt)
            (λ e f.
              kept (λ y. child_path path y.id) (t.node p).children (v.kids p)
                (v.kid_paths p path f));
      bare = λ p.
          update-cases (λ x. x.path ≡ none → x.children ≡ []) t.node t.next n p (λ e f. refl)
            (λ e. v.bare p);
      fresh = λ p b.
          update-cases (λ x. x.path ≡ none) t.node t.next n p (λ e. refl)
            (λ e. v.fresh p (omega arith));
      words = λ p. update-cases (λ x. x.id < 2 ^ 32) t.node t.next n p (λ e. h) (λ e. v.words p);
      positive = omega arith;
    }

-- A node without a path is given one.
abbrev pub named : ℕ → List ℕ → Tree → Tree
named m path t = record t { node = update t.node m (record (t.node m) { path = some path }) }

pub named-IsTree :
    (m : ℕ) (path : List ℕ) (t : Tree)
    → m < t.next
    → (t.node m).path ≡ none
    → IsTree t
    → IsTree (named m path t)
named-IsTree m path t below bare v =
    let n : Node = record (t.node m) { path = some path } in
    let node' : ℕ → Node = update t.node m n in
    let same_id : (p : ℕ) → p < t.next → (node' p).id ≡ (t.node p).id = λ p b.
      update-cases (λ x. x.id ≡ (t.node p).id) t.node m n p (λ e. ap (λ (q : ℕ). (t.node q).id) e)
        (λ e. refl) in
    let kept : (f : Node → List ℕ) (l : List ℕ)
        → All (HasPath t.node f) l
        → All (HasPath node' f) l =
      λ f l. All-map _ _ l (λ c e.
        update-cases (λ x. x.path ≡ some (f x)) t.node m n c
          (λ i. absurd (none-some (sym bare ∙ ap (λ (q : ℕ). (t.node q).path) i ∙ e))) (λ i. e)) in
    record {
      roots = Listed-cong t.node node' t.next t.next t.toplevel_list same_id (omega arith) v.roots;
      root_paths = kept (λ x. print_int x.id) t.toplevel_list v.root_paths;
      kids = λ p.
          update-cases (λ x. All (IsListed node' t.next x.children) x.children) t.node m n p
            (λ e.
              Listed-cong t.node node' t.next t.next (t.node m).children same_id (omega arith)
                (v.kids m))
            (λ e.
              Listed-cong t.node node' t.next t.next (t.node p).children same_id (omega arith)
                (v.kids p));
      kid_paths = λ p q.
          update-cases
            (λ x. x.path ≡ some q → All (HasPath node' (λ y. child_path q y.id)) x.children) t.node
            m n p
            (λ e f. subst (All (HasPath node' (λ y. child_path q y.id))) (sym (v.bare m bare)) tt)
            (λ e f. kept (λ y. child_path q y.id) (t.node p).children (v.kid_paths p q f));
      bare = λ p.
          update-cases (λ x. x.path ≡ none → x.children ≡ []) t.node m n p
            (λ e f. absurd (none-some (sym f))) (λ e. v.bare p);
      fresh = λ p b.
          update-cases (λ x. x.path ≡ none) t.node m n p (λ e. absurd (omega arith))
            (λ e. v.fresh p b);
      words = λ p. update-cases (λ x. x.id < 2 ^ 32) t.node m n p (λ e. v.words m) (λ e. v.words p);
      positive = v.positive;
    }

-- A named node joins the list at the top.
pub append_root-IsTree :
    (m : ℕ) (t : Tree)
    → 0 < m
    → m < t.next
    → find_id t.node (t.node m).id t.toplevel_list ≡ none
    → (t.node m).path ≡ some (print_int (t.node m).id)
    → IsTree t
    → IsTree (record t { toplevel_list = t.toplevel_list ++ (m ∷ []) })
append_root-IsTree m t live below new path v = record {
  roots = Listed-snoc t.node t.next t.toplevel_list m new live below v.roots;
  root_paths = All-append _ t.toplevel_list _ v.root_paths (path, tt);
  kids = v.kids;
  kid_paths = v.kid_paths;
  bare = v.bare;
  fresh = v.fresh;
  words = v.words;
  positive = v.positive;
}

-- A named node joins the children of its parent.
pub append_child-IsTree :
    (p c : ℕ) (path : List ℕ) (t : Tree)
    → 0 < c
    → c < t.next
    → find_id t.node (t.node c).id (t.node p).children ≡ none
    → (t.node p).path ≡ some path
    → (t.node c).path ≡ some (child_path path (t.node c).id)
    → IsTree t
    → IsTree (record t {
      node = update t.node p (record (t.node p) { children = (t.node p).children ++ (c ∷ []) });
    })
append_child-IsTree p c path t live below new has_path c_path v =
    let n : Node = record (t.node p) { children = (t.node p).children ++ (c ∷ []) } in
    let node' : ℕ → Node = update t.node p n in
    let same_id : (q : ℕ) → (node' q).id ≡ (t.node q).id = λ q.
      update-cases (λ x. x.id ≡ (t.node q).id) t.node p n q (λ e. ap (λ (r : ℕ). (t.node r).id) e)
        (λ e. refl) in
    let same_path : (q : ℕ) → (node' q).path ≡ (t.node q).path = λ q.
      update-cases (λ x. x.path ≡ (t.node q).path) t.node p n q
        (λ e. ap (λ (r : ℕ). (t.node r).path) e) (λ e. refl) in
    let kept : (f : ℕ → List ℕ) (l : List ℕ)
        → All (HasPath t.node (λ x. f x.id)) l
        → All (HasPath node' (λ x. f x.id)) l =
      λ f l.
        All-map _ _ l (λ q e. same_path q ∙ e ∙ ap (λ (i : ℕ). some (f i)) (sym (same_id q))) in
    let longer : All (IsListed t.node t.next n.children) n.children =
      Listed-snoc t.node t.next (t.node p).children c new live below (v.kids p) in
    record {
      roots =
          Listed-cong t.node node' t.next t.next t.toplevel_list (λ q b. same_id q) (omega arith)
            v.roots;
      root_paths = kept print_int t.toplevel_list v.root_paths;
      kids = λ q.
          update-cases (λ x. All (IsListed node' t.next x.children) x.children) t.node p n q
            (λ e.
              Listed-cong t.node node' t.next t.next n.children (λ r b. same_id r) (omega arith)
                longer)
            (λ e.
              Listed-cong t.node node' t.next t.next (t.node q).children (λ r b. same_id r)
                (omega arith) (v.kids q));
      kid_paths = λ q r.
          update-cases
            (λ x. x.path ≡ some r → All (HasPath node' (λ y. child_path r y.id)) x.children) t.node
            p n q
            (λ e f.
              kept (λ i. child_path r i) n.children
                (All-append _ (t.node p).children _ (v.kid_paths p r f) (
                  c_path
                      ∙ ap (λ (s : List ℕ). some (child_path s (t.node c).id))
                          (some_eq (sym has_path ∙ f)),
                  tt,
                )))
            (λ e f. kept (λ i. child_path r i) (t.node q).children (v.kid_paths q r f));
      bare = λ q.
          update-cases (λ x. x.path ≡ none → x.children ≡ []) t.node p n q
            (λ e f. absurd (none-some (sym f ∙ has_path))) (λ e. v.bare q);
      fresh = λ q b. same_path q ∙ v.fresh q b;
      words = λ q. subst (λ (i : ℕ). i < 2 ^ 32) (sym (same_id q)) (v.words q);
      positive = v.positive;
    }
