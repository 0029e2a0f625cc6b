-- ===== src/Sched.antt =====
-- sched.c and sched.h, the event scheduler: a queue of callbacks sorted by the time they are due.
pub mod Time
pub mod Defs
pub mod Runq
pub mod Order
pub mod Queue
pub mod Removal
pub mod Invariant
pub mod Safety
pub mod History
pub mod Liveness
pub mod Termination
pub mod Contract
pub mod Wait
mod Tests
