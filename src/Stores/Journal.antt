-- ===== src/Stores/Journal.antt =====
-- pkg/journal/journal.go: a log without a limit on its segments.
use alog.Common.{ℕ, List, Option}
use alog.Exec.{Result, Exec, Done}
use alog.Bytes.{Bytes}
use alog.Segment.Header.{Int64}
use alog.Chain.Files.{FileSystem}
use alog.Log.Options.{zero_storage, zero_pool}
use alog.Log.State
use alog.Log.State.{Log}
use alog.Log.Open
use alog.Log.Consume
use alog.Stores.Wal.{started}

unfoldable pub new : Bytes → Int64 → ℕ → FileSystem → Result Log
new directory max_segment_size start_sequence fs = started (
    Open.load directory (
      Open.new
        (record {
          storage = record zero_storage {
            start_sequence = start_sequence;
            max_segment_size = max_segment_size;
          };
          pool = zero_pool;
        })
        fs))

unfoldable pub range : {W : Type 0} → Log → ℕ → ℕ → (ℕ → Bytes → Exec W Done) → Exec W Done
range = Consume.range

unfoldable pub append : List Bytes → Exec Log ℕ
append = State.append

unfoldable pub first_sequence : Log → Option ℕ
first_sequence = State.first_sequence

unfoldable pub last_sequence : Log → Option ℕ
last_sequence = State.last_sequence

unfoldable pub truncate_before : ℕ → Exec Log Done
truncate_before = State.truncate_before

unfoldable pub truncate_after : ℕ → Exec Log Done
truncate_after = State.truncate_after

unfoldable pub sync : Exec Log Done
sync = State.sync

unfoldable pub close : Exec Log Done
close = State.close
