-- ===== src/Discover.antt =====
-- agent-discover.c: the discovery of hosts by pings, and their replies.
pub mod Defs
pub mod Send
pub mod Receive
pub mod Range
pub mod Loop
pub mod Queue
pub mod Ends
pub mod Packet
pub mod Vetting
pub mod Requests
pub mod Reach
mod Tests
