-- ===== src/Memory/MemoryPool.antt =====
-- src/memory/MemoryPool.cc: what holds of the pool.
pub mod Cut
pub mod Walk
pub mod Small
pub mod Give
pub mod Back
pub mod Intact
pub mod Calls
pub mod Safety
pub mod Blocks
pub mod Large
