-- ===== src/IpUtils.antt =====
-- ip_utils.c: the checksum of packets, and the test for a network mask.
pub mod Defs
pub mod Address
pub mod Checksum
pub mod Mask
mod Tests
