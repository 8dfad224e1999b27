-- ===== src/Stores/Wal.antt =====
-- pkg/wal/wal.go: a log of one segment, each of whose appends is synced.
use alog.Common.{ℕ, List}
use alog.Exec.{Result, ok, err, Exec, Done, ◌>>=◌, ◌>>◌, pure}
use alog.Bytes.{Bytes}
use alog.Segment.Header.{Int64, pos}
use alog.Chain.Files.{FileSystem}
use alog.Log.Options.{zero_storage, zero_pool}
use alog.Log.State
use alog.Log.State.{Log}
use alog.Log.Open
use alog.Log.Consume

-- What each New of these packages does: the error of Load is passed on as it is.
abbrev pub started : Result Done × Log → Result Log
started (ok x, l) = ok l
started (err e, l) = err e

unfoldable pub new : Bytes → Int64 → FileSystem → Result Log
new file_path max_size fs = started (
    Open.load file_path (
      Open.new
        (record {
          storage = record zero_storage { max_segment_size = max_size; max_segments = pos 1 };
          pool = zero_pool;
        })
        fs))

unfoldable pub append : List Bytes → Exec Log ℕ
append payloads = do seq ← State.append payloads; State.sync; pure seq

unfoldable pub consume : {W : Type 0} → ℕ → (ℕ → Bytes → Exec W Done) → Exec (Log × W) Done
consume = Consume.consume

unfoldable pub close : Exec Log Done
close = State.close
