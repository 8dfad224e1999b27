-- ===== src/Stores/Archive.antt =====
-- pkg/archive/archive.go: a log that keeps a number of segments, behind a writer.
use alog.Common.{ℕ, ◌+◌, ◌-◌, ◌*◌, ◌%◌, ◌^◌, ltb, [], Option, true, if◌then◌else◌}
use alog.Errors.{Err}
use alog.Exec.{Result, ok, err, Exec, Done}
use alog.Bytes.{Bytes}
use alog.Segment.Header.{Int64, pos, negsuc}
use alog.Chain.Files.{FileSystem}
use alog.Log.Options.{zero_storage, zero_pool}
use alog.Log.State
use alog.Log.State.{Log}
use alog.Log.Open
use alog.Log.Consume
use alog.Log.Timer
use alog.Log.Writer
use alog.Log.Writer.{Request, Choice}
use alog.Stores.Wal.{started}

-- The archive is its writer, whose target is its log.
abbrev pub Archive : Type 0
Archive = Writer.Writer Log

-- int64 arithmetic, which wraps round
abbrev pub unsigned : Int64 → ℕ
unsigned (pos n) = n
unsigned (negsuc n) = 2 ^ 64 - 1 - n

abbrev pub signed : ℕ → Int64
signed n = if ltb n (2 ^ 63) then pos n else negsuc (2 ^ 64 - 1 - n)

abbrev pub increment : Int64 → Int64
increment a = signed ((unsigned a + 1) % 2 ^ 64)

abbrev pub product : Int64 → Int64 → Int64
product a b = signed (unsigned a * unsigned b % 2 ^ 64)

-- StartWriter
unfoldable pub start_writer : Log → Archive
start_writer l = record {
  log = l;
  batch = [];
  size = 0;
  timer = Timer.new_lazy_timer;
  running = true;
  responses = [];
}

abbrev pub with_writer : Result Log → Result Archive
with_writer (ok l) = ok (start_writer l)
with_writer (err e) = err e

unfoldable pub new : Bytes → Int64 → Int64 → FileSystem → Result Archive
new directory immutable_segments max_segment_size fs = with_writer (
    started (
      Open.load directory (
        Open.new
          (record {
            storage = record zero_storage {
              max_disk_size = product (increment immutable_segments) max_segment_size;
              max_segment_size = max_segment_size;
              max_segments = increment immutable_segments;
            };
            pool = zero_pool;
          })
          fs)))

unfoldable pub range : {W : Type 0} → Archive → ℕ → ℕ → (ℕ → Bytes → Exec W Done) → Exec W Done
range a = Consume.range a.log

-- Append, up to the wait for the response
unfoldable pub append :
    Writer.Options → Option Err → Choice → Err → Request → Archive → Result Done × Archive
append opts ctx_err choice cause req a = Writer.submit State.append opts ctx_err choice cause req a

abbrev pub on_log : {A : Type 0} → Exec Log A → Exec Archive A
on_log m a = let (r, l) = m a.log in (r, record a { log = l })

unfoldable pub close : Exec Archive Done
close = on_log State.close
