-- ===== src/Memory.antt =====
-- src/memory: the memory pool.
pub mod Arena
pub mod Pool
pub mod Malloc
pub mod Free
pub mod MemoryPool
