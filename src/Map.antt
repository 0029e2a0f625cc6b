-- ===== src/Map.antt =====
-- agent-map.c: the tracing of the hops to a host.
pub mod Defs
pub mod Packets
pub mod Trail
pub mod Kept
pub mod Traced
pub mod Within
pub mod Reach
pub mod Arrival
mod Tests
