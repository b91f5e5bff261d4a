-- ===== src/Ring.antt =====
-- The two power-of-two rings of the library: `lockfree::RingBuffer` (include/flowcoro/lockfree.h)
-- in Ring/Slots, and `CacheFriendlyRingBuffer` (include/flowcoro/buffer.h) in Ring/Cache.
pub mod Window
pub mod Position
pub mod Cache
pub mod Slots
pub mod Trace
mod Tests
