-- ===== src/Monitoring/Nodes.antt =====
-- The tree of monitoring nodes of cheops-monitoring.c. A node has the address that g_malloc() gave;
-- 0 is the null pointer, and `none` is a use of one, or a write behind the end of a buffer.
use cheops_ng.Prelude.{
  update, ℕ, ◌+◌, List, [], ◌∷◌, ◌++◌, length, ◌||◌, ◌&&◌, not, Option, none, some, ◌==◌, ltb,
  if◌then◌else◌,
}
use cheops_ng.Prelude.Bytes.{is_equal}
use cheops_ng.Prelude.Decimal.{print_int}

-- `monitoring_node`; the callback is the address of a function.
pub record Node : Type 0 where
  pub name : Option (List ℕ)
  pub id : ℕ
  pub callback : ℕ
  pub path : Option (List ℕ)
  pub children : List ℕ

-- The nodes by their addresses, the next address, and `toplevel_list`.
pub record Tree : Type 0 where
  pub node : ℕ → Node
  pub next : ℕ
  pub toplevel_list : List ℕ

abbrev pub no_node : Node
no_node = record { name = none; id = 0; callback = 0; path = none; children = [] }

abbrev pub no_tree : Tree
no_tree = record { node = λ p. no_node; next = 1; toplevel_list = [] }

-- The loop over a list of nodes for an id.
unfoldable pub find_id : (ℕ → Node) → ℕ → List ℕ → Option ℕ
find_id node id [] = none
find_id node id (m ∷ gl) =
    let later = find_id node id gl in if not (m == 0) && (node m).id == id then some m else later

unfoldable pub monitoring_node_find_toplevel : ℕ → Tree → Option ℕ
unfolding find_id
monitoring_node_find_toplevel id t = find_id t.node id t.toplevel_list

unfoldable pub monitoring_node_find : ℕ → ℕ → Tree → Option ℕ
unfolding find_id
monitoring_node_find parent child_id t = find_id t.node child_id (t.node parent).children

-- The loop over a list of nodes for a name; strcmp() faults on a node without one.
unfoldable pub find_name : (ℕ → Node) → List ℕ → List ℕ → Option (Option ℕ)
unfolding is_equal
find_name node s [] = some none
find_name node s (m ∷ gl) =
    let later = find_name node s gl in
    if m == 0 then later else (elim (node m).name [
      | none ↦ none
      | some n ↦ if is_equal n s then some (some m) else later
    ])

unfoldable pub monitoring_node_find_by_name_toplevel : List ℕ → Tree → Option (Option ℕ)
unfolding find_name
monitoring_node_find_by_name_toplevel s t = find_name t.node s t.toplevel_list

unfoldable pub monitoring_node_find_by_name : ℕ → List ℕ → Tree → Option (Option ℕ)
unfolding find_name
monitoring_node_find_by_name parent s t = find_name t.node s (t.node parent).children

-- `monitoring_node_new`: g_malloc() gives memory or ends the program.
unfoldable pub monitoring_node_new : Option (List ℕ) → ℕ → ℕ → Tree → ℕ × Tree
monitoring_node_new name id cb t = (
  t.next,
  record t {
    node =
        update t.node t.next
          (record { name = name; id = id; callback = cb; path = none; children = [] });
    next = t.next + 1;
  },
)

abbrev pub put_toplevel : ℕ → Tree → Tree
put_toplevel m t = record t {
  node = update t.node m (record (t.node m) { path = some (print_int (t.node m).id) });
  toplevel_list = t.toplevel_list ++ (m ∷ []);
}

-- 0 is good, 1 is bad. The buffer has 100 bytes, of which "%d" takes 12 at most.
unfoldable pub monitoring_node_add_toplevel : ℕ → Tree → ℕ × Tree
unfolding monitoring_node_find_toplevel
monitoring_node_add_toplevel m t =
    if m == 0 then (1, t) else (elim (monitoring_node_find_toplevel (t.node m).id t) [
      | none ↦ (0, put_toplevel m t)
      | some there ↦ (1, t)
    ])

-- The path of a child, as sprintf() prints it with "%s.%d".
abbrev pub child_path : List ℕ → ℕ → List ℕ
child_path path id = path ++ (46 ∷ print_int id)

abbrev pub put_child : ℕ → ℕ → List ℕ → Tree → Tree
put_child parent child path t =
    let named = update t.node child (record (t.node child) { path = some path }) in
    record t {
      node =
          update named parent
            (record (named parent) { children = (named parent).children ++ (child ∷ []) });
    }

abbrev pub path_buffer : ℕ
path_buffer = 500

-- 0 is good, 1 is bad.
unfoldable pub monitoring_node_add : ℕ → ℕ → Tree → Option (ℕ × Tree)
unfolding monitoring_node_find
monitoring_node_add parent child t =
    if parent == 0 || child == 0
    then some (1, t)
    else (elim (monitoring_node_find parent (t.node child).id t) [
      | some there ↦ some (1, t)
      | none ↦ elim (t.node parent).path [
        | none ↦ none
        | some path ↦
            if ltb (length (child_path path (t.node child).id)) path_buffer
            then some (0, put_child parent child (child_path path (t.node child).id) t)
            else none
      ]
    ])
