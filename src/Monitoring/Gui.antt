-- ===== src/Monitoring/Gui.antt =====
-- The tree of nodes that `gui_monitoring_init` of gui-monitoring.c makes. Its callbacks are functions of
-- the graphical client, and stand here by their addresses.
use cheops_ng.Prelude.{◌>>=◌, ℕ, List, [], ◌∷◌, Option, none, some}
use cheops_ng.Monitoring.Nodes.{
  Tree, monitoring_node_new, monitoring_node_add_toplevel, monitoring_node_add,
  monitoring_node_find_toplevel,
}

-- A row of a table, of which the path and the children are NULL.
pub record Row : Type 0 where
  pub name : List ℕ
  pub id : ℕ
  pub callback : ℕ

pub record GuiCallbacks : Type 0 where
  pub gui_monitoring_os : ℕ
  pub gui_monitoring_port : ℕ
  pub gui_monitoring_state : ℕ
  pub gui_monitoring_os_change : ℕ
  pub gui_monitoring_port_open : ℕ
  pub gui_monitoring_port_no_change : ℕ
  pub gui_monitoring_port_no_new_ports : ℕ
  pub gui_monitoring_state_ping_host : ℕ
  pub gui_monitoring_state_check_port : ℕ

module _ (gui : GuiCallbacks) where
  abbrev pub toplevel_monitoring_default_values : List Row
  toplevel_monitoring_default_values =
      -- "OS"
      record { name = 79 ∷ 83 ∷ []; id = 0; callback = gui.gui_monitoring_os }
      ∷
          -- "port"
          record { name = 112 ∷ 111 ∷ 114 ∷ 116 ∷ []; id = 1; callback = gui.gui_monitoring_port }
      ∷
          -- "state"
          record {
            name = 115 ∷ 116 ∷ 97 ∷ 116 ∷ 101 ∷ [];
            id = 2;
            callback = gui.gui_monitoring_state;
          }
      ∷ []

  abbrev pub os_monitoring_default_values : List Row
  os_monitoring_default_values =
      -- "making sure it does not change"
      record {
        name =
            109 ∷ 97 ∷ 107 ∷ 105 ∷ 110 ∷ 103 ∷ 32 ∷ 115 ∷ 117 ∷ 114 ∷ 101 ∷ 32 ∷ 105 ∷ 116 ∷ 32
            ∷ 100 ∷ 111 ∷ 101 ∷ 115 ∷ 32 ∷ 110 ∷ 111 ∷ 116 ∷ 32 ∷ 99 ∷ 104 ∷ 97 ∷ 110 ∷ 103 ∷ 101
            ∷ [];
        id = 0;
        callback = gui.gui_monitoring_os_change;
      }
      ∷ []

  abbrev pub port_monitoring_default_values : List Row
  port_monitoring_default_values =
      -- "checking if it is open"
      record {
        name =
            99 ∷ 104 ∷ 101 ∷ 99 ∷ 107 ∷ 105 ∷ 110 ∷ 103 ∷ 32 ∷ 105 ∷ 102 ∷ 32 ∷ 105 ∷ 116 ∷ 32 ∷ 105
            ∷ 115 ∷ 32 ∷ 111 ∷ 112 ∷ 101 ∷ 110 ∷ [];
        id = 0;
        callback = gui.gui_monitoring_port_open;
      }
      ∷
          -- "making sure the version does not change"
          record {
            name =
                109 ∷ 97 ∷ 107 ∷ 105 ∷ 110 ∷ 103 ∷ 32 ∷ 115 ∷ 117 ∷ 114 ∷ 101 ∷ 32 ∷ 116 ∷ 104 ∷ 101
                ∷ 32 ∷ 118 ∷ 101 ∷ 114 ∷ 115 ∷ 105 ∷ 111 ∷ 110 ∷ 32 ∷ 100 ∷ 111 ∷ 101 ∷ 115 ∷ 32
                ∷ 110 ∷ 111 ∷ 116 ∷ 32 ∷ 99 ∷ 104 ∷ 97 ∷ 110 ∷ 103 ∷ 101 ∷ [];
            id = 1;
            callback = gui.gui_monitoring_port_no_change;
          }
      ∷
          -- "making sure no new ports open up"
          record {
            name =
                109 ∷ 97 ∷ 107 ∷ 105 ∷ 110 ∷ 103 ∷ 32 ∷ 115 ∷ 117 ∷ 114 ∷ 101 ∷ 32 ∷ 110 ∷ 111 ∷ 32
                ∷ 110 ∷ 101 ∷ 119 ∷ 32 ∷ 112 ∷ 111 ∷ 114 ∷ 116 ∷ 115 ∷ 32 ∷ 111 ∷ 112 ∷ 101 ∷ 110
                ∷ 32 ∷ 117 ∷ 112 ∷ [];
            id = 2;
            callback = gui.gui_monitoring_port_no_new_ports;
          }
      ∷ []

  abbrev pub state_monitoring_default_values : List Row
  state_monitoring_default_values =
      -- "pinging the host"
      record {
        name =
            112 ∷ 105 ∷ 110 ∷ 103 ∷ 105 ∷ 110 ∷ 103 ∷ 32 ∷ 116 ∷ 104 ∷ 101 ∷ 32 ∷ 104 ∷ 111 ∷ 115
            ∷ 116 ∷ [];
        id = 0;
        callback = gui.gui_monitoring_state_ping_host;
      }
      ∷
          -- "checking a port"
          record {
            name =
                99 ∷ 104 ∷ 101 ∷ 99 ∷ 107 ∷ 105 ∷ 110 ∷ 103 ∷ 32 ∷ 97 ∷ 32 ∷ 112 ∷ 111 ∷ 114 ∷ 116
                ∷ [];
            id = 1;
            callback = gui.gui_monitoring_state_check_port;
          }
      ∷ []

-- The loop over the rows of the top.
unfoldable pub add_rows_toplevel : List Row → Tree → Tree
unfolding monitoring_node_new monitoring_node_add_toplevel
add_rows_toplevel [] t = t
add_rows_toplevel (r ∷ rows) t =
    let (m, made) = monitoring_node_new (some r.name) r.id r.callback t in
    add_rows_toplevel rows (monitoring_node_add_toplevel m made).1

-- The loop over the rows of a parent.
unfoldable pub add_rows : ℕ → List Row → Tree → Option Tree
unfolding monitoring_node_new monitoring_node_add
add_rows parent [] t = some t
add_rows parent (r ∷ rows) t =
    let (m, made) = monitoring_node_new (some r.name) r.id r.callback t in
    elim (monitoring_node_add parent m made) [
      | none ↦ none
      | some (result, added) ↦ add_rows parent rows added
    ]

-- The rows of the parent of an id at the top, if it is there.
unfoldable pub add_under : ℕ → List Row → Tree → Option Tree
unfolding add_rows monitoring_node_find_toplevel
add_under id rows t = elim (monitoring_node_find_toplevel id t) [
  | none ↦ some t
  | some parent ↦ add_rows parent rows t
]

unfoldable pub gui_monitoring_init : GuiCallbacks → Tree → Option Tree
unfolding add_under add_rows_toplevel
gui_monitoring_init gui t = do
  os ←
      add_under 0 (os_monitoring_default_values gui)
        (add_rows_toplevel (toplevel_monitoring_default_values gui) t)
  port ← add_under 1 (port_monitoring_default_values gui) os
  add_under 2 (state_monitoring_default_values gui) port
