-- ===== src/Writer.antt =====
-- crates/bolt-load/src/task/instance/concurrent_task/file_writer/pending_writer.rs: writes are
-- dispatched up to a limit, one more is buffered, and each completion is accounted for. With the
-- completion guard of file_writer/command.rs.
pub mod State
pub mod Valid
pub mod Trace
pub mod Count
pub mod Ledger
pub mod Failed
pub mod Flush
mod Tests
