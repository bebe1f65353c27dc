-- ===== src/Sync.antt =====
-- crates/bolt-load-sync: the slot that keeps the latest value.
pub mod Slot
pub mod Poll
mod Tests
