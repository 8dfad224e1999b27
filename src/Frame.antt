-- ===== src/Frame.antt =====
-- internal/frame: the header of a frame, its checks, and reading frames from a file.
pub mod Header
pub mod Read
pub mod Pool
