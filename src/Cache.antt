-- ===== src/Cache.antt =====
-- cache.c: the cache of what has been pinged.
pub mod Defs
pub mod Bound
pub mod Eviction
mod Tests
