-- ===== src/Memory.antt =====
-- kernel/memory: addresses, the page bitmap, the physical page allocator, the bump heap, the page tables
-- and the memory of user processes.
pub mod Address
pub mod PageBitmap
pub mod Physical
pub mod Heap
pub mod Paging
pub mod UserSpace
mod Tests
mod PagingTests
