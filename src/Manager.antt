-- ===== src/Manager.antt =====
-- runner_manager.rs and its children: the runners of a task, from the allocation of an id to its release.
pub mod Types
pub mod State
pub mod Lifecycle
pub mod Data
pub mod Consistent
pub mod Release
pub mod Dismissed
pub mod Handled
pub mod Spawn
pub mod Resize
pub mod Poll
pub mod Granted
mod Tests
