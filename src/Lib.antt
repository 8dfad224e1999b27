-- ===== src/Lib.antt =====
-- alog is a library of append-only logs in files. A record is a payload with a sequence number;
-- its frame is a header of 16 bytes and the payload. A segment is a file of a header of 64 bytes and
-- frames; a chain is the segments of a directory; a log is a chain with a cursor; a writer gathers the
-- requests of many callers into batches for a log.
--
-- The parts and their files, each with the paths of the code from the repository's root:
--   Errors, Exec: the errors, and methods as functions from a state to a result and the state that
--     they leave, on failure too; Exec/Post: what a method guarantees on success and on failure
--   Bytes: big-endian numbers and CRC-32C
--   Storage: an open file (internal/storage/file.go); each call that changes it takes the next of its
--     scripted outcomes, and a failed write may have written any part of its bytes
--   Frame: internal/frame (NewHeader is Frame/Header.new_header, Reader.Read is Frame/Read.read);
--     Frame/Pool: frame.go and Reader.Read with the buffers of the pool, as Frame/Pool.borrow
--   Search: sort.Search; Index: internal/segment/index/offset.go, the sparse index
--   Segment/Header: internal/segment/header.go
--   Segment/State, Locate, Write, Load: internal/segment/segment.go (append, truncate, trim,
--     set_read_offset, find, load carry the names of the methods)
--   Segment/Scanner: internal/segment/scanner.go
--   Segment/Layout, Represents: the abstract view of a segment, a list of payloads; Append, Atomic,
--     Growth, Stretch, Scan, Lookup, Cut, Recovery and Reload relate the operations to it
--   Chain: internal/segment/chain.go; Chain/State, Append, Truncate, and Load with its loops in
--     Chain/Directory, have its methods, Chain/Files the directory and Create of segment.go; Chain/Sound
--     is the invariant of a chain, which Reap, Created, Readied, Admission, Checked, Settled and Opened keep;
--     Chain/Contents is the abstract view, a list of numbered payloads, and Last, Extended, Founded,
--     Targets, Refined, Cut, Places, Shortened, TruncatedAfter, Anew, Dropped, Seeking, Restarted, Onward,
--     TruncatedBefore and Synced relate the methods to it; Chain/Fuel is the loop of Append without fuel
--   Log: pkg/log; Log/State, Consume, Open: log.go, Log/Scan: scan.go, Log/Options: options.go,
--     Log/Writer: write/writer.go, with Order, Kept and Watch on its runs, Log/Timer: write/timer.go; Log/Position is where a scanner stands in
--     the list of payloads, and Advance, Next, Sought and Consumed relate Range and Consume to it
--   Stores: pkg/wal, pkg/journal and pkg/archive; Stores/Durable: an append to the write-ahead log
--   Tests: small inputs
--
-- Integers: numbers are natural numbers. Frame indices wrap at 2 ^ 32, sequence numbers and the
-- generation of a slot at 2 ^ 64 and 2 ^ 16, written out. Offsets and sizes are of files that exist
-- and do not reach 2 ^ 63; the limits of a chain are signed, since 0 and below mean no limit.
--
-- Loops: the scan of a file has a round of fuel more than the file has bytes, and a frame takes up at
-- least 16; the walks to an index or offset have as much fuel as the index or offset is large; the
-- loop that makes room in a chain has a round for each segment, of which each turn removes one; the
-- scanner of a log has a round for each segment and one more. An error `diverges` stands where fuel
-- would run out. The loops of Load go over the listing of the directory.
--
-- Not modelled: locks (the methods of a chain run one after the other); the duration of a timer and
-- the channels of the writer beyond the order of its events; which of the segments with the same start
-- sequence sort.Slice puts first (they are no chain, and Load refuses them unless they are empty); the
-- ties between what is written to a file and what a later opening of it reads, since the directory
-- that Load finds is an argument; the documentation tool, the mocks and the helpers of tests. The
-- operating system is the outcomes of its calls. Outside Frame/Pool a frame is a value.
pub mod Common
pub mod Errors
pub mod Exec
pub mod Bytes
pub mod Storage
pub mod Frame
pub mod Search
pub mod Index
pub mod Segment
pub mod Chain
pub mod Log
pub mod Stores
pub mod Tests
