-- ===== src/Chain.antt =====
-- internal/segment/chain.go: the chain of segments of a directory.
pub mod Files
pub mod State
pub mod Append
pub mod Truncate
pub mod Directory
pub mod Load
pub mod Short
pub mod Checked
pub mod Settled
pub mod Opened
pub mod Keep
pub mod Sound
pub mod Reap
pub mod Fuel
pub mod Created
pub mod Readied
pub mod Admission
pub mod Contents
pub mod Extended
pub mod Founded
pub mod Last
pub mod Targets
pub mod Refined
pub mod Cut
pub mod Shortened
pub mod Places
pub mod TruncatedAfter
pub mod Synced
pub mod Restarted
pub mod Seeking
pub mod Onward
pub mod TruncatedBefore
pub mod Dropped
pub mod Anew
