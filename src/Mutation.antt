-- ===== src/Mutation.antt =====
-- The changed byte ranges of a page, `PageMutation` of `crates/storage/src/buffer_pool.rs`.
pub mod Ranges
pub mod Merge
pub mod Coverage
pub mod Add
mod Tests
