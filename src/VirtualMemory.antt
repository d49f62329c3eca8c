-- ===== src/VirtualMemory.antt =====
-- The memory manager of `kernel/virtual_memory`.
pub mod Physical
pub mod Virtual
pub mod Paging
pub mod Memory
pub mod Slab
pub mod Heap
mod Tests
