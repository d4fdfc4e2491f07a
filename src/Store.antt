-- ===== src/Store.antt =====
-- internal/store: the storage behind the cache.
pub mod Sharded
pub mod Wheel
mod Tests
