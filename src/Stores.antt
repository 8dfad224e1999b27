-- ===== src/Stores.antt =====
-- pkg/wal/wal.go, pkg/journal/journal.go and pkg/archive/archive.go: the logs that users open. Each is
-- its log, or its writer, and most of its methods are those of the log.
pub mod Wal
pub mod Journal
pub mod Archive
pub mod Durable
