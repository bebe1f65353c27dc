-- ===== src/Planner.antt =====
-- crates/bolt-load/src/task/instance/concurrent_task/chunk_planner.rs: which byte ranges of the
-- download belong to which runner, and how far each has come.
pub mod Chunk
pub mod State
pub mod Queries
pub mod Guard
pub mod Chain
pub mod Valid
pub mod History
pub mod Reach
pub mod Accepted
pub mod Runners
pub mod Coverage
pub mod Release
pub mod Resize
pub mod Assigned
pub mod Available
pub mod Merge
pub mod Downloaded
pub mod Staffed
mod Tests
