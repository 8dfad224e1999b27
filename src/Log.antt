-- ===== src/Log.antt =====
-- pkg/log: the log over a chain of segments, its scanner and its writer.
pub mod State
pub mod Scan
pub mod Position
pub mod Advance
pub mod Next
pub mod Sought
pub mod Consumed
pub mod Consume
pub mod Options
pub mod Open
pub mod Timer
pub mod Writer
