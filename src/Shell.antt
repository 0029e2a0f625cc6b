-- ===== src/Shell.antt =====
-- The shell: cheops-sh-guts.c, and the parser of its lines in misc.c.
pub mod Bits
pub mod Discover
pub mod Network
pub mod Asked
pub mod Parse
pub mod Words
mod Tests
