-- ===== src/Memory.antt =====
-- LSD/src/memory: the frame allocator, the heap of the kernel, device memory, and addresses.
pub mod Pmm
pub mod Heap
pub mod Dma
pub mod Paging
pub mod Fields
pub mod Tables
pub mod Vmm
