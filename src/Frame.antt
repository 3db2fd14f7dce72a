-- ===== src/Frame.antt =====
-- The frame header of the buffer pool, `crates/frame-kernel`.
pub mod PageId
pub mod State
pub mod Transition
mod Tests
