-- ===== src/Http.antt =====
-- crates/bolt-load-http: what an HTTP status means, and whether a response to a range request carries
-- the bytes that were asked for.
pub mod Status
pub mod Range
pub mod Body
pub mod Limit
pub mod Accept
pub mod Classes
pub mod RetryAfter
pub mod Delay
mod Tests
