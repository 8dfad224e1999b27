-- ===== src/Errors.antt =====
-- The errors of the program: the sentinels of internal/frame/errors.go, internal/segment (header.go,
-- scanner.go, chain.go) and pkg/log/write/writer.go, those of Go's io and os that the code tests
-- for, and the two ways in which Go builds an error from errors.
use alog.Common.{ℕ, Bool, false, ◌||◌, ◌==◌}

pub data Err : Type 0 where
  -- io.EOF, io.ErrUnexpectedEOF, os.ErrClosed, os.ErrNotExist, os.ErrExist
  eof unexpected_eof closed not_exist exist : Err
  -- internal/frame/errors.go
  payload_too_large invalid_checksum invalid_frame_index invalid_frame_header : Err
  -- internal/segment/header.go
  invalid_segment_header negative_read_offset : Err
  -- internal/segment/scanner.go
  out_of_bounds segment_reaped : Err
  -- internal/segment/chain.go
  segment_full disk_full batch_too_large too_many_segments not_contiguous not_directory : Err
  -- pkg/log/write/writer.go, and the error of a cancelled context
  stopped cancelled : Err
  -- no errors of the program: the fuel of a loop of the model ran out, and a panic
  diverges panic : Err
  -- any other error of the operating system
  other : ℕ → Err
  -- errors.Join(a, b) of two errors that are there, and fmt.Errorf("…: %w", e)
  join : Err → Err → Err
  wrap : Err → Err

-- A number for each error that is no combination, by which `errors.Is` compares them.
abbrev pub code : Err → ℕ
code eof = 0
code unexpected_eof = 1
code closed = 2
code not_exist = 3
code exist = 4
code payload_too_large = 5
code invalid_checksum = 6
code invalid_frame_index = 7
code invalid_frame_header = 8
code invalid_segment_header = 9
code negative_read_offset = 10
code out_of_bounds = 11
code segment_reaped = 12
code segment_full = 13
code disk_full = 14
code batch_too_large = 15
code too_many_segments = 16
code not_contiguous = 17
code not_directory = 18
code stopped = 19
code cancelled = 20
code diverges = 24
code panic = 25
code (other n) = 21
code (join a b) = 22
code (wrap e) = 23

-- errors.Is(e, target), for a target that is one of the sentinels.
abbrev pub is : Err → Err → Bool
is (join a b) target = is a target || is b target
is (wrap e) target = is e target
is (other n) target = false
is e target = code e == code target
