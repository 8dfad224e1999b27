-- ===== src/Chain/Directory.antt =====
-- internal/segment/chain.go: what Load does with the files of the directory: the loops over them, and
-- the sort. The segment that is to be trimmed is a mark beside it, which goes with it through the
-- sort, as the pointer `trimSegment` does.
use alog.Common.{
  ℕ, suc, Option, some, none, ◌==◌, ltb, List, [], ◌∷◌, ◌++◌, Bool, true, false, ◌&&◌, ◌||◌, not,
  if◌then◌else◌,
}
use alog.Errors.{not_exist, not_directory, unexpected_eof, wrap, is}
use alog.Exec.{Result, ok, err, Exec, Done, pure, raise, lift, attempt, wrapped, ◌>>=◌, ◌>>◌}
use alog.Bytes.{Bytes}
use alog.Segment.State.{Segment, start_sequence, next_sequence}
use alog.Segment.Load
use alog.Segment.Load.{Loaded, whole, torn}
use alog.Chain.State.{Chain, on_fs}
use alog.Chain.Files.{DirEntry, FileSystem, open_file, stat, mkdir_all, has_extension, join_path}

-- Segment.Load, by its path
unfoldable pub load_segment : Bool → Bytes → Exec FileSystem Loaded
load_segment sync_on_append path = open_file path >>= λ file. lift (Load.load sync_on_append file)

-- The test by which each entry of the listing is taken or skipped
abbrev pub is_segment_file : DirEntry → Bool
is_segment_file e = not e.is_dir && not e.is_symlink && has_extension e.entry_name

abbrev pub segment_files : List DirEntry → List Bytes
segment_files [] = []
segment_files (e ∷ es) =
    if is_segment_file e then e.entry_name ∷ segment_files es else segment_files es

-- The checks of the directory, which is made if it is not there
abbrev pub located : Result Bool → Exec FileSystem Done
located (ok is_dir) = if is_dir then pure tt else raise not_directory
located (err e) = if not (is e not_exist) then raise (wrap e) else wrapped mkdir_all

unfoldable pub prepare : Exec FileSystem Done
prepare = attempt stat >>= located

-- A segment, and whether it is `trimSegment`
abbrev pub Marked : Type 0
Marked = Segment × Bool

abbrev pub is_marked : List Marked → Bool
is_marked [] = false
is_marked ((s, b) ∷ ms) = b || is_marked ms

abbrev pub unmarked : List Marked → List Segment
unmarked [] = []
unmarked ((s, b) ∷ ms) = s ∷ unmarked ms

-- One turn of the loop over the directory: the segments so far with the new one, or `none` where nil
-- joins them. One torn segment is let through. A file that is too short to have a header, or to reach
-- its read offset, gives the same error and no segment, so that `trimSegment` is nil as before.
abbrev pub take_in : List Marked → Result Loaded → Result (Option (List Marked))
take_in ms (ok (whole s)) = ok (some (ms ++ (s, false) ∷ []))
take_in ms (ok (torn s e)) = if is_marked ms then err e else ok (some (ms ++ (s, true) ∷ []))
take_in ms (err e) = if not (is_marked ms) && is e unexpected_eof then ok none else err e

-- The chain while it is loaded. Its segments are those of `marked`, and as many nils as `nils` says.
pub record Opening : Type 0 where
  pub chain : Chain
  pub marked : List Marked
  pub nils : ℕ

abbrev pub on_directory : {A : Type 0} → Exec FileSystem A → Exec Opening A
on_directory m o = let (r, c) = on_fs m o.chain in (r, record o { chain = c })

abbrev pub taken_in : Result (Option (List Marked)) → Exec Opening Done
taken_in (ok (some ms)) o = (ok tt, record o { marked = ms })
taken_in (ok none) o = (ok tt, record o { nils = suc o.nils })
taken_in (err e) o = (err e, o)

-- One turn, by the way in which what was loaded is taken in
abbrev pub load_file :
    (List Marked → Result Loaded → Result (Option (List Marked))) → Bytes → Exec Opening Done
load_file take name o =
    let (r, p) =
      on_directory (load_segment o.chain.sync_on_append (join_path o.chain.directory name)) o in
    taken_in (take p.marked r) p

unfoldable pub load_files :
    (List Marked → Result Loaded → Result (Option (List Marked))) → List Bytes → Exec Opening Done
load_files take [] = pure tt
load_files take (name ∷ names) = load_file take name >> load_files take names

-- sort.Slice by the start sequences
abbrev pub place : Marked → List Marked → List Marked
place m [] = m ∷ []
place (s, b) ((t, d) ∷ ms) =
    if ltb (start_sequence t) (start_sequence s)
    then (t, d) ∷ place (s, b) ms
    else (s, b) ∷ (t, d) ∷ ms

abbrev pub sorted : List Marked → List Marked
sorted [] = []
sorted (m ∷ ms) = place m (sorted ms)

abbrev pub contiguous : List Marked → Bool
contiguous [] = true
contiguous ((s, b) ∷ []) = true
contiguous ((s, b) ∷ (t, d) ∷ ms) = next_sequence s == start_sequence t && contiguous ((t, d) ∷ ms)

-- trimSegment != chain.segments[len(chain.segments)-1]
abbrev pub marked_last : List Marked → Bool
marked_last [] = false
marked_last ((s, b) ∷ []) = b
marked_last (m ∷ n ∷ ms) = marked_last (n ∷ ms)
