-- ===== src/Freelist.antt =====
-- The allocator of free pages, `crates/storage/src/free_page_allocator.rs`.
pub mod Extent
pub mod Central
pub mod Allocator
pub mod Extents
pub mod BestFit
pub mod Allocate
mod Tests
