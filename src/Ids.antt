-- ===== src/Ids.antt =====
-- task/instance/id.rs: the generator of runner ids.
pub mod Generator
pub mod Bits
pub mod Valid
pub mod Refine
mod Tests
