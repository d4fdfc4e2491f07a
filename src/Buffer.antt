-- ===== src/Buffer.antt =====
-- internal/buffer: the ring buffer and the batching buffers on it.
pub mod Ring
mod Tests
