-- ===== src/Event.antt =====
-- event.c: the handlers, the list of agents, the reassembly of messages from a socket, and their
-- dispatch to the handlers.
pub mod Defs
pub mod Safety
pub mod Stall
pub mod Registry
pub mod Agents
pub mod Cleanup
pub mod Auth
mod Tests
