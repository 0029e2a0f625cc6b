-- ===== src/Io.antt =====
-- io.c and io.h, the table of watched file descriptors behind the main loop.
pub mod Defs
pub mod Invariant
pub mod Shrink
pub mod Wait
pub mod Callback
pub mod Serving
mod Tests
