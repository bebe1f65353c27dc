-- ===== src/Strategy.antt =====
-- The download strategies: what the runners' outcomes and the speed say about their number.
pub mod Float
pub mod Sampler
pub mod Concurrency
pub mod Dynamic
pub mod Control
pub mod Clock
pub mod Bounds
pub mod Loop
pub mod Total
pub mod Counts
pub mod Window
pub mod Policy
pub mod Streak
mod Tests
