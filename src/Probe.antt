-- ===== src/Probe.antt =====
-- probe.c: the table of probes, and a probe of a port from its start to its end.
pub mod Defs
pub mod Table
pub mod Refine
pub mod Life
pub mod Callbacks
pub mod Release
pub mod Text
pub mod Strip
mod Tests
