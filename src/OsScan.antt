-- ===== src/OsScan.antt =====
-- The scans of operating systems: agent-osscan.c, and the reply of it that gui-handlers.c reads.
pub mod Reply
pub mod Client
pub mod Options
pub mod RoundTrip
pub mod Worker
pub mod Order
pub mod Histories
mod Tests
