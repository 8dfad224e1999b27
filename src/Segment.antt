-- ===== src/Segment.antt =====
-- internal/segment: segments, their headers and their scanners.
pub mod Header
pub mod State
pub mod Locate
pub mod Scanner
pub mod Write
pub mod Layout
pub mod Represents
pub mod Append
pub mod Atomic
pub mod Sealing
pub mod Growth
pub mod Scan
pub mod Stretch
pub mod Lookup
pub mod Cut
pub mod Load
pub mod Recovery
pub mod Reload
