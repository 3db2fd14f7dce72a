-- ===== src/Latch.antt =====
-- The hybrid latch of `crates/hybrid-latch`.
pub mod Word
pub mod System
pub mod Safety
pub mod Reads
mod Tests
