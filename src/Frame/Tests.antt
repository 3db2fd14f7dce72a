-- ===== src/Frame/Tests.antt =====
-- Runs of `crates/frame-kernel/src/frame.rs`.
