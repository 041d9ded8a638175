-- ===== src/Buffers.antt =====
-- The buffers of the library: packets, io vectors, queues with a lock, and the pool of fixed blocks.
pub mod Io
pub mod Memory
pub mod Packet
pub mod Roll
pub mod Sync
mod Tests
