-- ===== src/Chain/Append.antt =====
-- internal/segment/chain.go: Append, its loop that reaps segments, and the rotation.
use alog.Common.{
  zero, not, not, ℕ, suc, ◌+◌, ◌-◌, ◌^◌, ◌%◌, leb, List, [], ◌∷◌, ◌++◌, Bool, ◌&&◌, ◌||◌,
  if◌then◌else◌, length,
}
use alog.Errors.{join, segment_full, disk_full, batch_too_large, diverges}
use alog.Exec.{Result, ok, err, Exec, Done, pure, raise, gets, modify, lift, ◌>>=◌, ◌>>◌}
use alog.Bytes.{Bytes}
use alog.Segment.Header.{header_size}
use alog.Segment.State.{Segment, size, next_sequence, append_size}
use alog.Segment.Write
use alog.Chain.Files.{create, segment_file_name, join_path}
use alog.Chain.State.{Chain, exceeds, reaches, last_segment, on_fs, set_last, reap_oldest}

-- `rotate`: the last segment has no room for `n` bytes.
abbrev pub is_rotation : ℕ → Segment → Chain → Bool
is_rotation n last c = exceeds (size last + n) c.max_segment_size

abbrev pub required : ℕ → Bool → ℕ
required n rotate = if rotate then n + header_size else n

abbrev pub disk_exceeded : ℕ → Bool → Chain → Bool
disk_exceeded n rotate c = exceeds (c.disk_size + required n rotate) c.max_disk_size

abbrev pub needs_reap : ℕ → Bool → Chain → Bool
needs_reap n rotate c =
    (rotate && reaches (length c.segments) c.max_segments) || disk_exceeded n rotate c

-- A turn of the loop, with what follows once a segment is to be removed
abbrev pub room_with : ℕ → Exec Chain Bool → Result Segment → Exec Chain Bool
room_with n reap (err e) c = (err e, c)
room_with n reap (ok last) c =
    let rotate = is_rotation n last c in
    if not (needs_reap n rotate c)
    then (ok rotate, c)
    else if leb (length c.segments) 1
    then (err (if disk_exceeded n rotate c then disk_full else segment_full), c)
    else reap c

unfoldable pub room_turn : ℕ → Exec Chain Bool → Exec Chain Bool
room_turn n reap c = room_with n reap (last_segment c.segments) c

-- The loop: it returns `rotate`. Each turn but the last removes a segment, so that the number of
-- segments is fuel enough.
unfoldable pub make_room : ℕ → ℕ → Exec Chain Bool
make_room zero n = room_turn n (raise diverges)
make_room (suc k) n = room_turn n (reap_oldest >> make_room k n)

-- A new segment at the end
unfoldable pub add_segment : Segment → Chain → Chain
add_segment s c = record c { segments = c.segments ++ s ∷ []; disk_size = c.disk_size + size s }

unfoldable pub rotated : Exec Chain Done
rotated = do
  c ← gets (λ c. c)
  last ← lift (last_segment c.segments)
  let next = next_sequence last
  new ← on_fs (create (join_path c.directory (segment_file_name next)) next c.sync_on_append)
  modify (add_segment new)

abbrev pub rotate_if : Bool → Exec Chain Done
rotate_if rotate = if rotate then rotated else pure tt

-- The append to the last segment
abbrev pub on_last : Segment → Exec Segment Done → Exec Chain Done
on_last last m c = let (r, t) = m last in (r, record c { segments = set_last t c.segments })

unfoldable pub append_last : List Bytes → Exec Chain ℕ
append_last payloads = do
  c ← gets (λ c. c)
  last ← lift (last_segment c.segments)
  on_last last (Write.append payloads)
  modify (λ d. record d { disk_size = d.disk_size + append_size payloads })
  pure ((next_sequence last + length payloads + (2 ^ 64 - 1)) % 2 ^ 64)

-- From the loop on
unfoldable pub append_batch : List Bytes → Exec Chain ℕ
append_batch payloads = do
  c ← gets (λ c. c)
  rotate ← make_room (length c.segments) (append_size payloads)
  rotate_if rotate
  append_last payloads

unfoldable pub append : List Bytes → Exec Chain ℕ
append [] = pure 0
append (p ∷ ps) = do
  c ← gets (λ c. c)
  if exceeds (header_size + append_size (p ∷ ps)) c.max_segment_size
      then raise (join segment_full batch_too_large)
      else append_batch (p ∷ ps)
