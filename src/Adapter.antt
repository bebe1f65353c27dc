-- ===== src/Adapter.antt =====
-- crates/bolt-load-core/src/adapter: the errors of an adapter and the header `Content-Range`. With the
-- error of a runner, crates/bolt-load/src/runner/error.rs. A text is its characters; an I/O error or a
-- foreign error is its code; a `Duration` is a number.
pub mod Error
pub mod Text
pub mod ContentRange
pub mod Display
pub mod Digits
pub mod RoundTrip
mod Tests
