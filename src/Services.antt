-- ===== src/Services.antt =====
-- cheops-osscan.c: the names of the services of ports.
pub mod Defs
pub mod Lookup
pub mod Removal
mod Tests
