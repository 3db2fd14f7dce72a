-- ===== src/Wal.antt =====
-- The write-ahead log, `crates/wal`.
pub mod Capacity
pub mod Patch
pub mod PatchShape
pub mod PatchCodec
pub mod PatchDiff
pub mod RoundTrip
pub mod Records
pub mod Packed
pub mod Append
pub mod Replay
pub mod Recovery
pub mod Checkpoint
pub mod CheckpointTests
pub mod Slots
pub mod Chunks
pub mod Reassembly
pub mod Delivery
pub mod ImageBytes
pub mod EndToEnd
pub mod Batch
pub mod BatchCodec
pub mod BatchPage
pub mod Lsn
pub mod Handles
pub mod Submitted
pub mod Window
pub mod HighWater
mod Tests
