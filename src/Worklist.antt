-- ===== src/Worklist.antt =====
-- The work lists of libcoro/include/galois/worklists: linked queues, chunk pools, priority buckets.
pub mod LinkedQueue
pub mod Chunk
pub mod Sockets
pub mod Master
pub mod Obim
