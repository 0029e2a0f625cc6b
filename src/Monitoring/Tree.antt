-- ===== src/Monitoring/Tree.antt =====
-- The tree of nodes as it should be, and that each operation keeps it so.
use cheops_ng.Prelude.{
  ℕ, ◌^◌, ◌≤◌, ◌<◌, ◌≡◌, refl, ◌∙◌, ap, sym, inl, inr, Bool-cases, List, [], ◌∷◌, ◌++◌, ◌==◌, ◌&&◌,
  not, none, some, none-some, All, All-map, All-append, arith,
}
use cheops_ng.Prelude.Decimal.{print_int}
use cheops_ng.Monitoring.Nodes.{Node, Tree, no_tree, find_id, child_path}

-- A node of the list that the search for its id finds.
pub record IsListed (node : ℕ → Node) (next : ℕ) (l : List ℕ) (m : ℕ) : Type 0 where
  pub live : 0 < m
  pub below : m < next
  pub found : find_id node (node m).id l ≡ some m

-- Every list of siblings has distinct ids; the path of a node at the top is its id, and that of a
-- child is its parent's with a dot and its id; a node without a path has no children.
pub record IsTree (t : Tree) : Type 0 where
  pub roots : All (IsListed t.node t.next t.toplevel_list) t.toplevel_list
  pub root_paths : All (λ m. (t.node m).path ≡ some (print_int (t.node m).id)) t.toplevel_list
  pub kids : (p : ℕ) → All (IsListed t.node t.next (t.node p).children) (t.node p).children
  pub kid_paths :
      (p : ℕ) (path : List ℕ)
      → (t.node p).path ≡ some path
      → All (λ c. (t.node c).path ≡ some (child_path path (t.node c).id)) (t.node p).children
  pub bare : (p : ℕ) → (t.node p).path ≡ none → (t.node p).children ≡ []
  pub fresh : (p : ℕ) → t.next ≤ p → (t.node p).path ≡ none
  pub words : (p : ℕ) → (t.node p).id < 2 ^ 32
  pub positive : 0 < t.next

pub no_tree-IsTree : IsTree no_tree
no_tree-IsTree = record {
  roots = tt;
  root_paths = tt;
  kids = λ p. tt;
  kid_paths = λ p path e. tt;
  bare = λ p e. refl;
  fresh = λ p h. refl;
  words = λ p. omega arith;
  positive = omega arith;
}

pub find_id-cong :
    (node node' : ℕ → Node) (id : ℕ) (l : List ℕ)
    → All (λ m. (node' m).id ≡ (node m).id) l
    → find_id node' id l ≡ find_id node id l
unfolding find_id
find_id-cong node node' id [] h = refl
find_id-cong node node' id (m ∷ l) h = rw (h.0, find_id-cong node node' id l h.1) refl

pub find_id-append :
    (node : ℕ → Node) (id : ℕ) (l k : List ℕ) (m : ℕ)
    → find_id node id l ≡ some m
    → find_id node id (l ++ k) ≡ some m
unfolding find_id
find_id-append node id [] k m e = absurd (none-some e)
find_id-append node id (x ∷ l) k m e = elim (Bool-cases (not (x == 0) && (node x).id == id)) [
  | inl same ↦ rw same (rw same at e)
  | inr other ↦ rw other (find_id-append node id l k m (rw other at e))
]

pub find_id-snoc :
    (node : ℕ → Node) (l : List ℕ) (c : ℕ)
    → find_id node (node c).id l ≡ none
    → 0 < c
    → find_id node (node c).id (l ++ (c ∷ [])) ≡ some c
unfolding find_id
find_id-snoc node [] c e h = ground (arith, h)
find_id-snoc node (x ∷ l) c e h = elim (Bool-cases (not (x == 0) && (node x).id == (node c).id)) [
  | inl same ↦ absurd (none-some (sym (rw same at e)))
  | inr other ↦ rw other (find_id-snoc node l c (rw other at e) h)
]

pub Listed-snoc :
    (node : ℕ → Node) (next : ℕ) (l : List ℕ) (c : ℕ)
    → find_id node (node c).id l ≡ none
    → 0 < c
    → c < next
    → All (IsListed node next l) l
    → All (IsListed node next (l ++ (c ∷ []))) (l ++ (c ∷ []))
Listed-snoc node next l c e live below h =
    All-append _ l (c ∷ [])
      (All-map _ _ l
        (λ m k. record {
          live = k.live;
          below = k.below;
          found = find_id-append node (node m).id l (c ∷ []) m k.found;
        })
        h)
      (record { live = live; below = below; found = find_id-snoc node l c e live }, tt)

-- Ids and bounds are all that a list of siblings depends on.
pub Listed-cong :
    (node node' : ℕ → Node) (next next' : ℕ) (l : List ℕ)
    → ((p : ℕ) → p < next → (node' p).id ≡ (node p).id)
    → next ≤ next'
    → All (IsListed node next l) l
    → All (IsListed node' next' l) l
Listed-cong node node' next next' l same grow h =
    let ids = All-map _ (λ m. (node' m).id ≡ (node m).id) l (λ m k. same m k.below) h in
    All-map _ _ l
      (λ m k. record {
        live = k.live;
        below = let b = k.below in omega arith;
        found =
            ap (λ (id : ℕ). find_id node' id l) (same m k.below)
            ∙ find_id-cong node node' (node m).id l ids
            ∙ k.found;
      })
      h
