-- ===== src/Policy.antt =====
-- internal/policy: TinyLFU admission and sampled LFU eviction.
pub mod Sampled
pub mod Sketch
pub mod Bloom
pub mod TinyLfu
pub mod Combined
pub mod Cuckoo
mod Tests
