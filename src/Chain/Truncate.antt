-- ===== src/Chain/Truncate.antt =====
-- internal/segment/chain.go: TruncateBefore, TruncateAfter, Sync and Close. A segment is changed in
-- place in the chain's list, so that what a failed call has closed or cut stays so.
use alog.Common.{
  zero, ℕ, suc, ◌+◌, ◌-◌, ◌%◌, ◌^◌, ltb, List, [], ◌∷◌, Option, none, some, Bool, false,
  if◌then◌else◌, length, get_elem?, take, drop,
}
use alog.Errors.{panic, join}
use alog.Exec.{
  Result, ok, err, Exec, Done, pure, gets, modify, lift, attempt, wrapped, wrap_result, ◌>>=◌, ◌>>◌,
}
use alog.Search.{search}
use alog.Segment.State.{Segment, size, start_sequence, next_sequence}
use alog.Segment.Write
use alog.Segment.Write.{set_read_offset}
use alog.Segment.Scanner
use alog.Segment.Scanner.{new_scanner}
use alog.Chain.Files.{remove, create, segment_file_name, join_path}
use alog.Chain.State.{Chain, on_fs}
use alog.Chain.Append.{add_segment}

abbrev pub set_at : ℕ → Segment → List Segment → List Segment
set_at i t [] = []
set_at zero t (s ∷ ss) = t ∷ ss
set_at (suc i) t (s ∷ ss) = s ∷ set_at i t ss

-- chain.segments[i]
abbrev pub present : Option Segment → Result Segment
present none = err panic
present (some s) = ok s

abbrev pub segment_at : ℕ → Exec Chain Segment
segment_at i c = (present (get_elem? c.segments i), c)

abbrev pub put_back : {A : Type 0} → ℕ → Result A × Segment → Exec Chain A
put_back i (r, t) c = (r, record c { segments = set_at i t c.segments })

-- A method of chain.segments[i]
abbrev pub on_segment : {A : Type 0} → ℕ → Exec Segment A → Exec Chain A
on_segment i m = segment_at i >>= λ s. put_back i (m s)

-- The loops that close and remove the segments [i, i + n)
unfoldable pub remove_range : ℕ → ℕ → Exec Chain Done
remove_range zero i = pure tt
remove_range (suc n) i = do
  s ← segment_at i
  on_segment i Write.close
  on_fs (remove s.file.name)
  modify (λ c. record c { disk_size = c.disk_size - size s })
  remove_range n (suc i)

-- `keepIndex`: the segment that has the sequence number
abbrev pub ends_after : ℕ → List Segment → ℕ → Bool
ends_after seq ss i = elim (get_elem? ss i) [ none ↦ false | some s ↦ ltb seq (next_sequence s) ]

abbrev pub keep_from : ℕ → ℕ → Option Segment → Option ℕ
keep_from seq k none = none
keep_from seq k (some s) = if ltb seq (start_sequence s) then none else some k

unfoldable pub keep_index : ℕ → List Segment → Option ℕ
keep_index seq ss =
    let k = search (length ss) (ends_after seq ss) in keep_from seq k (get_elem? ss k)

-- The start of the first segment is moved to the sequence number, by way of a scanner.
abbrev pub seek_offset : ℕ → Segment → Result ℕ
seek_offset seq s =
    let (r, sc) = Scanner.seek s seq (new_scanner s 0) in
    elim r [ err e ↦ err e | ok x ↦ ok sc.offset ]

unfoldable pub move_start : ℕ → Exec Chain Done
move_start seq = do
  s ← segment_at 0
  offset ← lift (wrap_result (seek_offset seq s))
  wrapped (on_segment 0 (set_read_offset offset))

abbrev pub start_before : ℕ → Segment → Exec Chain Done
start_before seq s = if ltb (start_sequence s) seq then move_start seq else pure tt

-- All records are before `seq`
unfoldable pub empty_last : ℕ → Exec Chain Done
empty_last last_index = do
  remove_range last_index 0
  last ← segment_at last_index
  on_segment last_index (set_read_offset last.write_offset)
  modify (λ c. record c { segments = drop last_index c.segments })

unfoldable pub truncate_none_before : ℕ → Exec Chain Done
truncate_none_before seq = do
  n ← gets (λ c. length c.segments)
  last ← segment_at (n - 1)
  if ltb seq (next_sequence last) then pure tt else empty_last (n - 1)

unfoldable pub truncate_before_at : ℕ → ℕ → Exec Chain Done
truncate_before_at seq k = do
  remove_range k 0
  modify (λ c. record c { segments = drop k c.segments })
  s ← segment_at 0
  start_before seq s

abbrev pub truncate_before_from : ℕ → Option ℕ → Exec Chain Done
truncate_before_from seq none = truncate_none_before seq
truncate_before_from seq (some k) = truncate_before_at seq k

unfoldable pub truncate_before : ℕ → Exec Chain Done
truncate_before seq c = elim c.segments [
  | [] ↦ (ok tt, c)
  | s ∷ ss ↦ truncate_before_from seq (keep_index seq c.segments) c
]

-- All records are after `seq`: the chain begins anew.
unfoldable pub restart : Exec Chain Done
restart = do
  n ← gets (λ c. length c.segments)
  remove_range n 0
  modify (λ c. record c { segments = [] })
  c ← gets (λ c. c)
  new ← on_fs (
      create (join_path c.directory (segment_file_name c.chain_start)) c.chain_start
        c.sync_on_append)
  modify (add_segment new)

unfoldable pub truncate_none_after : ℕ → Exec Chain Done
truncate_none_after seq = do
  first ← segment_at 0
  if ltb seq (start_sequence first) then restart else pure tt

abbrev pub start_within : ℕ → Segment → Exec Chain Done
start_within k s =
    if ltb s.write_offset s.start_offset
    then on_segment k (set_read_offset s.write_offset)
    else pure tt

unfoldable pub truncate_after_at : ℕ → ℕ → Exec Chain Done
truncate_after_at seq k = do
  n ← gets (λ c. length c.segments)
  remove_range (n - (k + 1)) (k + 1)
  modify (λ c. record c { segments = take (k + 1) c.segments })
  old ← segment_at k
  on_segment k (Write.truncate ((seq + 1) % 2 ^ 64))
  keep ← segment_at k
  modify (λ c. record c { disk_size = c.disk_size + size keep - size old })
  start_within k keep

abbrev pub truncate_after_from : ℕ → Option ℕ → Exec Chain Done
truncate_after_from seq none = truncate_none_after seq
truncate_after_from seq (some k) = truncate_after_at seq k

unfoldable pub truncate_after : ℕ → Exec Chain Done
truncate_after seq c = elim c.segments [
  | [] ↦ (ok tt, c)
  | s ∷ ss ↦ truncate_after_from seq (keep_index seq c.segments) c
]

-- Sync of the segments [i, i + n)
unfoldable pub sync_range : ℕ → ℕ → Exec Chain Done
sync_range zero i = pure tt
sync_range (suc n) i = on_segment i Write.sync >> sync_range n (suc i)

unfoldable pub sync : Exec Chain Done
sync c = sync_range (length c.segments) 0 c

-- errors.Join(err, e), where nil is `ok tt`
abbrev pub join_results : Result Done → Result Done → Result Done
join_results (ok x) r = r
join_results (err e) (ok x) = err e
join_results (err e) (err d) = err (join e d)

unfoldable pub close_range : ℕ → ℕ → Result Done → Exec Chain Done
close_range zero i r = lift r
close_range (suc n) i r = do
  e ← attempt (on_segment i Write.close)
  close_range n (suc i) (join_results r e)

unfoldable pub close : Exec Chain Done
close c = close_range (length c.segments) 0 (ok tt) c
