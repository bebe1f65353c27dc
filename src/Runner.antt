-- ===== src/Runner.antt =====
-- crates/bolt-load/src/runner: the runner of one chunk.
pub mod State
pub mod Emit
pub mod Handle
pub mod Poll
mod Slices
pub mod Inputs
pub mod Kept
pub mod Valid
pub mod Holding
pub mod Buffer
pub mod Steps
pub mod Rounds
pub mod Reading
pub mod Phases
pub mod Runs
pub mod Cancel
mod Tests
