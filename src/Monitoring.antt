-- ===== src/Monitoring.antt =====
-- The monitoring of hosts: cheops-monitoring.c, and the tree of it that gui-monitoring.c makes.
pub mod Nodes
pub mod Session
pub mod Tokens
pub mod Tree
pub mod Kept
pub mod Reach
pub mod Placed
pub mod Run
pub mod Missing
pub mod Gui
pub mod Made
mod Tests
