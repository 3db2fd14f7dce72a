-- ===== src/Swip.antt =====
-- Tagged page references, `crates/swip-kernel`.
pub mod State
pub mod Word
pub mod Lifecycle
mod Tests
