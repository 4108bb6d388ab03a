-- ===== src/Memory.antt =====
-- Memory management (memory/): the physical page allocator and the kernel heap.
pub mod Heap
pub mod Vmm
pub mod Pmm
