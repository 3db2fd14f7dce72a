-- ===== src/Header.antt =====
-- The bytes that all pages begin with, `crates/storage/src/page_header.rs`.
pub mod PageType
pub mod RoundTrip
mod Tests
