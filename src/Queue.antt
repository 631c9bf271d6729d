-- ===== src/Queue.antt =====
-- lock_free_queue.hpp: a queue of many producers and one consumer, its steps interleaved.
pub mod System
pub mod Order
pub mod Safety
pub mod Progress
pub mod Whole
pub mod Destroy
mod Tests
