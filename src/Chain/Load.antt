-- ===== src/Chain/Load.antt =====
-- internal/segment/chain.go: Load, on the segments of the directory.
use alog.Common.{
  Option, some, ◌+◌, length, ℕ, ◌==◌, ltb, List, [], ◌∷◌, ◌++◌, Bool, true, false, not,
  if◌then◌else◌,
}
use alog.Errors.{
  panic, not_contiguous, disk_full, too_many_segments, Err, not_exist, unexpected_eof, wrap, is,
}
use alog.Exec.{
  gets, modify, Result, ok, err, Exec, Done, pure, raise, attempt, wrapped, ◌>>=◌, ◌>>◌,
}
use alog.Bytes.{Bytes}
use alog.Segment.Header.{pos, negsuc}
use alog.Segment.State.{size, Segment}
use alog.Segment.Write
use alog.Segment.Load.{Loaded, whole, torn}
use alog.Chain.State.{Chain, exceeds, last_segment}
use alog.Chain.Truncate.{close_range}
use alog.Chain.Files.{create, segment_file_name, read_dir, DirEntry, join_path}
use alog.Chain.Directory.{
  load_segment, segment_files, prepare, Marked, is_marked, unmarked, take_in, Opening, on_directory,
  load_files, sorted, contiguous, marked_last,
}

abbrev pub check : Bool → Err → Exec Opening Done
check holds e = if holds then pure tt else raise e

-- What follows the loop over the files. A nil among the segments makes a comparison of sort.Slice panic,
-- and where it is the only one, the sum of the sizes.
unfoldable pub order_loaded : Exec Opening Done
order_loaded = do
  n ← gets (λ o. length o.marked + o.nils)
  most ← gets (λ o. o.chain.max_segments)
  check (not (exceeds n most)) too_many_segments
  nils ← gets (λ o. o.nils)
  check (nils == 0) panic
  modify (λ o. record o { marked = sorted o.marked })
  ms ← gets (λ o. o.marked)
  check (contiguous ms) not_contiguous

unfoldable pub load_many : Exec Opening Done
load_many = do
  on_directory prepare
  entries ← on_directory read_dir
  load_files take_in (segment_files entries)
  order_loaded

-- The directory of a chain of one segment: each error of a file ends the loop.
abbrev pub take_strictly : List Marked → Result Loaded → Result (Option (List Marked))
take_strictly ms (ok (whole s)) = ok (some (ms ++ (s, false) ∷ []))
take_strictly ms (ok (torn s e)) = err e
take_strictly ms (err e) = err e

-- trimSegment = chain.segments[0]
abbrev pub mark_first : List Marked → List Marked
mark_first [] = []
mark_first ((s, b) ∷ ms) = (s, true) ∷ ms

abbrev pub search_listed : Result (List DirEntry) → Exec Opening Done
search_listed (err e) = if is e not_exist then pure tt else raise e
search_listed (ok entries) = do
  load_files take_strictly (segment_files entries)
  n ← gets (λ o. length o.marked)
  check (not (ltb 1 n)) too_many_segments
  modify (λ o. record o { marked = mark_first o.marked })

-- The segment file of sequence number 0 is looked for first.
abbrev pub found_single : Result Loaded → Exec Opening Done
found_single (ok (whole s)) = do
  modify (λ o. record o { marked = (s, true) ∷ [] })
  entries ← on_directory read_dir
  check (not (ltb 1 (length (segment_files entries)))) too_many_segments
found_single (ok (torn s e)) = raise e
found_single (err e) =
    if is e not_exist then attempt (on_directory read_dir) >>= search_listed else raise e

unfoldable pub load_single : Exec Opening Done
load_single = do
  on_directory prepare
  c ← gets (λ o. o.chain)
  found ←
      attempt
        (on_directory (load_segment c.sync_on_append (join_path c.directory (segment_file_name 0))))
  found_single found

abbrev pub is_single : Chain → Bool
is_single c = elim c.max_segments [ pos n ↦ n == 1 | negsuc n ↦ false ]

-- A segment in the last place
abbrev pub set_marked_last : Segment → List Marked → List Marked
set_marked_last t [] = []
set_marked_last t ((s, b) ∷ []) = (t, b) ∷ []
set_marked_last t (m ∷ n ∷ ms) = m ∷ set_marked_last t (n ∷ ms)

abbrev pub trim_with : Result Segment → Exec Opening Done
trim_with (err e) o = (err e, o)
trim_with (ok s) o =
    let (r, t) = Write.trim s in (r, record o { marked = set_marked_last t o.marked })

abbrev pub trim_last : Exec Opening Done
trim_last o = trim_with (last_segment (unmarked o.marked)) o

abbrev pub trim_marked : List Marked → Exec Opening Done
trim_marked ms =
    if not (is_marked ms)
    then pure tt
    else if not (marked_last ms)
    then raise (wrap unexpected_eof)
    else wrapped trim_last

abbrev pub sizes : List Marked → ℕ
sizes [] = 0
sizes ((s, b) ∷ ms) = size s + sizes ms

abbrev pub account : Opening → Opening
account o = record o { chain = record o.chain { disk_size = sizes o.marked } }

-- The first segment of a new chain
abbrev pub begin : Segment → Opening → Opening
begin s o = record o { marked = (s, false) ∷ []; chain = record o.chain { disk_size = size s } }

unfoldable pub create_first : Exec Opening Done
create_first = do
  c ← gets (λ o. o.chain)
  let path = join_path c.directory (segment_file_name c.chain_start)
  new ← on_directory (create path c.chain_start c.sync_on_append)
  modify (begin new)

unfoldable pub settle_loaded : Exec Opening Done
settle_loaded = do
  ms ← gets (λ o. o.marked)
  trim_marked ms
  modify account
  c ← gets (λ o. o.chain)
  check (not (exceeds c.disk_size c.max_disk_size)) (wrap disk_full)

abbrev pub settle_with : List Marked → Exec Opening Done
settle_with [] = create_first
settle_with (m ∷ ms) = settle_loaded

abbrev pub settle : Exec Opening Done
settle o = settle_with o.marked o

unfoldable pub open_all : Exec Opening Done
open_all o = ((if is_single o.chain then load_single else load_many) >> settle) o

-- The end of Load: on an error the deferred function closes the segments, and panics at a nil.
abbrev pub opened : Result Done × Opening → Result Done × Chain
opened (ok x, o) = (ok tt, record o.chain { segments = unmarked o.marked })
opened (err e, o) =
    let c = record o.chain { segments = unmarked o.marked } in
    if o.nils == 0 then close_range (length o.marked) 0 (err e) c else (err panic, c)

unfoldable pub load : Bytes → Exec Chain Done
load location c = opened (
    open_all
      (record { chain = record c { directory = location; disk_size = 0 }; marked = []; nils = 0 }))
