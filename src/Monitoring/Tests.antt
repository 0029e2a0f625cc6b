-- ===== src/Monitoring/Tests.antt =====
-- Runs of the monitoring on the tree of the graphical client.
use cheops_ng.Prelude.{ℕ, ◌+◌, ◌*◌, ◌≡◌, ◌≢◌, refl, [], ◌∷◌, none, some, inl, inr, arith}
use cheops_ng.Prelude.Decimal.{print_int}
use cheops_ng.Monitoring.Nodes.{Tree, no_tree, child_path, monitoring_node_add, monitoring_node_new}
use cheops_ng.Monitoring.Session.{
  Session, not_found, toplevel_not_found, monitoring_session_new, monitoring_session_run,
}
use cheops_ng.Monitoring.Reach.{Reach, start, Reach-IsTree}
use cheops_ng.Monitoring.Tree.{IsTree}
use cheops_ng.Monitoring.Placed.{Placed, at_top, below, monitoring_node_add_fits}
use cheops_ng.Monitoring.Run.{monitoring_session_run-path}
use cheops_ng.Monitoring.Missing.{
  Lacks, monitoring_session_run-not_found, monitoring_session_run-toplevel_not_found,
}
use cheops_ng.Monitoring.Gui.{GuiCallbacks, gui_monitoring_init}
use cheops_ng.Monitoring.Made.{gui_monitoring_init-Reach}

abbrev gui : GuiCallbacks
gui = record {
  gui_monitoring_os = 11;
  gui_monitoring_port = 12;
  gui_monitoring_state = 13;
  gui_monitoring_os_change = 14;
  gui_monitoring_port_open = 15;
  gui_monitoring_port_no_change = 16;
  gui_monitoring_port_no_new_ports = 17;
  gui_monitoring_state_ping_host = 18;
  gui_monitoring_state_check_port = 19;
}

-- The top has the nodes 1 to 3; 4, then 5 to 7, then 8 and 9 are their children.
unfoldable gui_tree : Tree
unfolding gui_monitoring_init
gui_tree = elim (gui_monitoring_init gui no_tree) [ none ↦ no_tree | some t ↦ t ]

gui_tree-Reach : Reach gui_tree
unfolding gui_monitoring_init gui_tree print_int
gui_tree-Reach = gui_monitoring_init-Reach gui no_tree gui_tree start refl

Reach-IsTree_example : IsTree gui_tree
Reach-IsTree_example = Reach-IsTree gui_tree gui_tree-Reach

-- "1.2" is the path that cheops-monitoring.h gives as its example.
no_new_ports : (gui_tree.node 7).path ≡ some (49 ∷ 46 ∷ 50 ∷ [])
unfolding gui_tree print_int
no_new_ports = refl

-- A callback that writes down its node.
abbrev notes : ℕ → ℕ → Session → Session
notes f m x = record x { state = 2; seconds = x.seconds * 100 + m }

abbrev session : Session
session = monitoring_session_new none

port_below : Placed gui_tree 7 (2 ∷ 7 ∷ [])
unfolding gui_tree print_int
port_below = below (at_top (inr (inl refl))) (inr (inr (inl refl)))

monitoring_session_run-path_example :
    monitoring_session_run notes gui_tree (some (record session { id = (gui_tree.node 7).path }))
    ≡ some (2, some (record session { id = (gui_tree.node 7).path; state = 2; seconds = 207 }))
unfolding gui_tree print_int monitoring_session_new
monitoring_session_run-path_example =
    monitoring_session_run-path notes gui_tree 7 (2 ∷ 7 ∷ []) session gui_tree-Reach port_below

-- The port has no node 9.
unknown :
    monitoring_session_run notes gui_tree (some (record session { id = some (49 ∷ 46 ∷ 57 ∷ []) }))
    ≡ some (
      3,
      some (record session {
        id = some (49 ∷ 46 ∷ 57 ∷ []);
        state = 3;
        seconds = 2;
        error = some not_found;
      }),
    )
unfolding gui_tree monitoring_session_run print_int monitoring_session_new
unknown = refl

port_at_top : Placed gui_tree 2 (2 ∷ [])
unfolding gui_tree print_int
port_at_top = at_top (inr (inl refl))

-- "1.9", then ".1".
no_child : Lacks gui_tree 9 (gui_tree.node 2).children
unfolding gui_tree print_int
no_child = grind arith

monitoring_session_run-not_found_example :
    monitoring_session_run notes gui_tree
      (some (record session { id = some (49 ∷ 46 ∷ 57 ∷ 46 ∷ 49 ∷ []) }))
    ≡ some (
      3,
      some (record session {
        id = some (49 ∷ 46 ∷ 57 ∷ 46 ∷ 49 ∷ []);
        state = 3;
        seconds = 2;
        error = some not_found;
      }),
    )
unfolding gui_tree print_int monitoring_session_new child_path
monitoring_session_run-not_found_example =
    monitoring_session_run-not_found notes gui_tree 2 9 (2 ∷ []) (49 ∷ []) (46 ∷ 49 ∷ []) session
      gui_tree-Reach port_at_top refl (omega arith) no_child (inr (49 ∷ [], refl))

no_root : Lacks gui_tree 9 gui_tree.toplevel_list
unfolding gui_tree print_int
no_root = grind arith

monitoring_session_run-toplevel_not_found_example :
    monitoring_session_run notes gui_tree (some (record session { id = some (57 ∷ []) }))
    ≡ some (
      3,
      some (record session { id = some (57 ∷ []); state = 3; error = some toplevel_not_found }),
    )
unfolding gui_tree print_int monitoring_session_new
monitoring_session_run-toplevel_not_found_example =
    monitoring_session_run-toplevel_not_found notes gui_tree 9 [] session (omega arith) no_root
      (inl refl)

monitoring_node_add_fits_example : monitoring_node_add 2 9 gui_tree ≢ none
monitoring_node_add_fits_example =
    monitoring_node_add_fits gui_tree 2 9 (2 ∷ []) gui_tree-Reach port_at_top (omega arith)

-- A new node 10 with the id 5, and the tree in which it is a child of the port.
unfoldable larger : Tree
unfolding monitoring_node_new
larger = (monitoring_node_new none 5 20 gui_tree).1

unfoldable grown : Tree
unfolding monitoring_node_add
grown = elim (monitoring_node_add 2 10 larger) [ none ↦ no_tree | some (r, t) ↦ t ]

is_grown : monitoring_node_add 2 10 larger ≡ some (0, grown)
unfolding grown larger gui_tree print_int monitoring_node_add
is_grown = refl

port_in_larger : Placed larger 2 (2 ∷ [])
unfolding larger gui_tree print_int
port_in_larger = at_top (inr (inl refl))
