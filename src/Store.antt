-- ===== src/Store.antt =====
-- The page store of `crates/storage/src/page_store.rs`.
pub mod Header
pub mod Reopen
mod Tests
