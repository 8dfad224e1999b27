-- ===== src/Chain/State.antt =====
-- internal/segment/chain.go: the state of a chain, its limits, and `reapOldestLocked`.
use alog.Common.{ℕ, ◌-◌, ltb, leb, List, [], ◌∷◌, Option, none, some, Bool, false, ◌&&◌}
use alog.Errors.{panic}
use alog.Exec.{Result, ok, err, Exec, Done, gets, modify, lift, ◌>>=◌, ◌>>◌}
use alog.Bytes.{Bytes}
use alog.Segment.Header.{Int64, pos, negsuc}
use alog.Segment.State.{Segment, size}
use alog.Segment.Write.{close}
use alog.Chain.Files.{FileSystem, remove}

pub record Chain : Type 0 where
  pub fs : FileSystem
  pub directory : Bytes
  pub segments : List Segment
  pub chain_start : ℕ
  pub disk_size : ℕ
  pub max_disk_size : Int64
  pub max_segments : Int64
  pub max_segment_size : Int64
  pub sync_on_append : Bool

-- limit > 0 && x > limit, limit > 0 && x >= limit
abbrev pub exceeds : ℕ → Int64 → Bool
exceeds x (pos n) = ltb 0 n && ltb n x
exceeds x (negsuc n) = false

abbrev pub reaches : ℕ → Int64 → Bool
reaches x (pos n) = ltb 0 n && leb n x
reaches x (negsuc n) = false

-- segments[0] and segments[len(segments)-1]; an empty slice makes these panic.
abbrev pub head_segment : List Segment → Result Segment
head_segment [] = err panic
head_segment (s ∷ ss) = ok s

abbrev pub last_from : Segment → List Segment → Segment
last_from s [] = s
last_from s (t ∷ ts) = last_from t ts

abbrev pub last_segment : List Segment → Result Segment
last_segment [] = err panic
last_segment (s ∷ ss) = ok (last_from s ss)

-- A call of the file system, and of the last segment.
abbrev pub on_fs : {A : Type 0} → Exec FileSystem A → Exec Chain A
on_fs m c = let (r, fs) = m c.fs in (r, record c { fs = fs })

abbrev pub set_last : Segment → List Segment → List Segment
set_last t [] = []
set_last t (s ∷ []) = t ∷ []
set_last t (s ∷ u ∷ us) = s ∷ set_last t (u ∷ us)

-- Head, of which nil is `none`
unfoldable pub head : Chain → Option Segment
head c = elim c.segments [ [] ↦ none | s ∷ ss ↦ some s ]

unfoldable pub active_segments : Chain → List Segment
active_segments c = c.segments

unfoldable pub tail : Chain → Result Segment
tail c = last_segment c.segments

-- What is left once the oldest segment's file is gone. A size is taken off `disk_size` only once it
-- was added, so that it does not fall below 0.
unfoldable pub drop_oldest : Segment → Chain → Chain
drop_oldest oldest c = record c {
  segments = elim c.segments [ [] ↦ [] | s ∷ ss ↦ ss ];
  disk_size = c.disk_size - size oldest;
}

unfoldable pub reap_oldest : Exec Chain Done
reap_oldest = do
  segments ← gets (λ c. c.segments)
  oldest ← lift (head_segment segments)
  on_fs (remove oldest.file.name)
  modify (drop_oldest oldest)
  lift (close oldest).0
