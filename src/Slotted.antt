-- ===== src/Slotted.antt =====
-- The slotted page of `crates/storage/src/slotted_page.rs`.
pub mod Layout
pub mod Ops
pub mod Tests
mod Payload
mod Compaction
pub mod Compactify
pub mod Accounts
pub mod Suffix
pub mod Append
pub mod Copy
pub mod Place
pub mod Insert
pub mod Edit
pub mod Truncate
pub mod Update
pub mod Search
pub mod Bisect
pub mod LowerBound
pub mod Optimistic
pub mod Logged
pub mod Covered
pub mod Changes
pub mod Recorded
pub mod Sorted
pub mod Runs
