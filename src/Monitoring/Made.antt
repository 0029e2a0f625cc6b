-- ===== src/Monitoring/Made.antt =====
-- The tables of gui-monitoring.c are added by calls that keep the tree as it should be.
use cheops_ng.Prelude.{
  update-same, ℕ, ◌^◌, ◌<◌, ◌≡◌, ap, subst, Option-cases, inl, inr, List, [], ◌∷◌, some, some_eq,
  none-some, All, arith,
}
use cheops_ng.Monitoring.Nodes.{
  Node, Tree, monitoring_node_new, monitoring_node_add, monitoring_node_find_toplevel,
}
use cheops_ng.Monitoring.Gui.{
  Row, GuiCallbacks, os_monitoring_default_values, port_monitoring_default_values,
  state_monitoring_default_values, toplevel_monitoring_default_values, add_rows, add_rows_toplevel,
  add_under, gui_monitoring_init,
}
use cheops_ng.Monitoring.Reach.{Reach, make, top, child}

abbrev AreWords : List Row → Type 0
AreWords = All (λ (r : Row). r.id < 2 ^ 32)

add_rows_toplevel-Reach :
    (rows : List Row) (t : Tree) → AreWords rows → Reach t → Reach (add_rows_toplevel rows t)
unfolding add_rows_toplevel monitoring_node_new
add_rows_toplevel-Reach [] t h r = r
add_rows_toplevel-Reach (row ∷ rows) t h r = add_rows_toplevel-Reach rows _ h.1 (
    top t.next (omega arith) (ap (λ (n : Node). n.path) (update-same t.node t.next _))
      (make (some row.name) row.id row.callback h.0 r))

add_rows-Reach :
    (parent : ℕ) (rows : List Row) (t t' : Tree)
    → AreWords rows
    → Reach t
    → add_rows parent rows t ≡ some t'
    → Reach t'
unfolding add_rows monitoring_node_new
add_rows-Reach parent [] t t' h r e = subst Reach (some_eq e) r
add_rows-Reach parent (row ∷ rows) t t' h r e =
    let made = (monitoring_node_new (some row.name) row.id row.callback t).1 in
    elim (Option-cases (monitoring_node_add parent t.next made)) [
      | inl fault ↦ absurd (none-some (rw (add_rows, fault) at e))
      | inr ((result, added), kept) ↦
          add_rows-Reach parent rows added t' h.1
            (child parent t.next result (omega arith)
              (ap (λ (n : Node). n.path) (update-same t.node t.next _)) kept
              (make (some row.name) row.id row.callback h.0 r))
            (rw (add_rows, kept) at e)
    ]

add_under-Reach :
    (id : ℕ) (rows : List Row) (t t' : Tree)
    → AreWords rows
    → Reach t
    → add_under id rows t ≡ some t'
    → Reach t'
unfolding add_under
add_under-Reach id rows t t' h r e = elim (Option-cases (monitoring_node_find_toplevel id t)) [
  | inl absent ↦ subst Reach (some_eq (rw (add_under, absent) at e)) r
  | inr (parent, found) ↦ add_rows-Reach parent rows t t' h r (rw (add_under, found) at e)
]

-- Whatever the callbacks of the client are, what `gui_monitoring_init` makes of a tree that calls made
-- is one too.
pub gui_monitoring_init-Reach :
    (gui : GuiCallbacks) (t t' : Tree) → Reach t → gui_monitoring_init gui t ≡ some t' → Reach t'
unfolding gui_monitoring_init
gui_monitoring_init-Reach gui t t' r e =
    let roots = toplevel_monitoring_default_values gui in
    let first = add_rows_toplevel-Reach roots t (omega arith, (omega arith, (omega arith, tt))) r in
    elim (Option-cases
      (add_under 0 (os_monitoring_default_values gui) (add_rows_toplevel roots t))) [
        | inl fault ↦ absurd (none-some (rw fault at e))
        | inr (os, e1) ↦
            let second =
              add_under-Reach 0 (os_monitoring_default_values gui) _ os (omega arith, tt) first
                e1 in
            elim (Option-cases (add_under 1 (port_monitoring_default_values gui) os)) [
              | inl fault ↦ absurd (none-some (rw (e1, fault) at e))
              | inr (port, e2) ↦
                  let third =
                    add_under-Reach 1 (port_monitoring_default_values gui) os port
                      (omega arith, (omega arith, (omega arith, tt))) second e2 in
                  add_under-Reach 2 (state_monitoring_default_values gui) port t'
                    (omega arith, (omega arith, tt)) third (rw (e1, e2) at e)
            ]
      ]
