-- ===== src/Tests.antt =====
-- Small inputs at which the development's theorems apply.
mod Opening
mod Contents
use alog.Common.{
  length-append, ℕ, ◌+◌, ◌-◌, ◌%◌, ◌≡◌, ◌<◌, ◌≤◌, refl, sym, ap, ◌∙◌, arith, List, [], ◌∷◌, ◌++◌,
  none, some, Bool, true, false, length, get_elem?, take, slice, splice, leb, ltb, ◌||◌, ◌==◌,
  if◌then◌else◌,
}
use alog.Errors
use alog.Errors.{out_of_bounds}
use alog.Exec.{ok, err, Exec}
use alog.Exec.Post.{Post}
use alog.Bytes.{Bytes}
use alog.Search.{search_loop, search, IsEdge, search_unique}
use alog.Storage.{File, IsReadable}
use alog.Frame.Header as FrameHeader
use alog.Frame.Header.{max_uint32, validate}
use alog.Frame.Header.Laws.{validate-new_header}
use alog.Frame.Read.{read}
use alog.Frame.Read.Laws.{encode, frame_of, torn_error, read-encode, read-torn}
use alog.Index.{OffsetIndex, set, for_frame_index, truncate_after}
use alog.Index.Laws.{Holds}
use alog.Index.Order.{IsOrdered, lookup, floor, set_update, for_frame_index-floor}
use alog.Index.Cut.{truncate_after_exact}
use alog.Segment.Header
use alog.Segment.Header.{
  Int64, pos, negsuc, MetaSlot, read_offset, slot_offset, slot_valid, generation, next_slot, meta,
  newer_than,
}
use alog.Segment.Header.Laws.{
  first_slot, first_slot_fields, length-new_header, start_sequence-new_header,
  read_offset-next_slot,
}
use alog.Segment.Header.Slots.{
  IsSlot, IsCurrent, first, meta-IsCurrent, torn-IsCurrent, next-IsCurrent,
}
use alog.Segment.State.{Segment, base_sequence, start_sequence, next_sequence}
use alog.Segment.Locate.{find, index_for_offset}
use alog.Segment.Scan.{next_exact}
use alog.Segment.Scanner
use alog.Segment.Scanner.{new_scanner}
use alog.Segment.Write
use alog.Segment.Growth.{Grown, append-Grown}
use alog.Segment.Layout.{length-frames, frames, offset_at, offset_at-zero, set-IsIndexOf}
use alog.Segment.Represents.{Layout, Represents, held}
use alog.Segment.Atomic.{IsWhole, Trimmed, append_atomic}
use alog.Segment.Lookup.{find_exact, index_for_offset-exact}
use alog.Segment.Sealing.{CutEnds}
use alog.Segment.Cut.{truncate_exact}
use alog.Segment.Load.{load_frames}
use alog.Segment.Recovery.{IsCutFile, ending, load_frames-recovers, first-IsIndexOf}
use alog.Chain.State.{Chain}
use alog.Chain.Append
use alog.Chain.Truncate.{keep_index}
use alog.Chain.Fuel.{Loop, make_room-Loop}
use alog.Chain.Keep.{Contains, keep_index-Contains}
use alog.Chain.Sound.{Sound}
use alog.Chain.Reap.{Kept}
use alog.Chain.Admission.{Admitted, append_within_limits}
use alog.Log.Timer
use alog.Log.Writer.{Request, Options, Writer, answers, receive, stop, Runs, halt, receives, stops}
use alog.Log.Writer.Order.{answers-at, queue, queue-Runs}

-- A segment with the base sequence number 5, and the frame of one payload.
abbrev pub payload : Bytes
payload = 1 ∷ 2 ∷ 3 ∷ []

abbrev pub payloads : List Bytes
payloads = payload ∷ []

abbrev pub first_header : Header.Header
first_header = Header.new_header 5

abbrev pub file_of : Bytes → File
file_of bs = record {
  name = 97 ∷ [];
  bytes = bs;
  durable = [];
  position = 0;
  is_closed = false;
  read_fault = λ _. none;
  outcomes = [];
}

pub file_of-IsReadable : (bs : Bytes) → IsReadable (file_of bs)
file_of-IsReadable bs = record { is_open = refl; no_fault = λ _. refl }

abbrev pub segment : Segment
segment = record {
  file = file_of (first_header ++ (frames 0 payloads ++ []));
  offset_index = set 1 83 (set 0 64 []);
  write_offset = 83;
  start_offset = 64;
  write_index = 1;
  start_index = 0;
  sync_on_append = true;
  header = first_header;
  meta = first_slot 5;
}

pub segment-Represents : Represents segment payloads
unfolding offset_at
segment-Represents = record {
  layout = record {
    head = first_header;
    rest = [];
    shape = refl;
    head_length = length-new_header 5;
  };
  fits = (omega arith, tt);
  small = omega arith;
  count = refl;
  end_offset = refl;
  start_bound = omega arith;
  start = refl;
  index = set-IsIndexOf payloads 1 83 _ (first-IsIndexOf payloads) (omega arith, refl);
}

pub base : base_sequence segment ≡ 5
unfolding base_sequence
base = start_sequence-new_header 5 (omega arith)

pub segment-IsWhole : IsWhole segment
segment-IsWhole = omega (
  arith,
  length-append first_header (frames 0 payloads ++ []),
  length-append (frames 0 payloads) [],
  length-new_header 5,
  length-frames 0 payloads,
)

append_atomic_example :
    Post
      (Write.append payloads segment)
      (λ _ t. Represents t (payloads ++ payloads) × IsWhole t)
      (λ x t. Represents t payloads × Trimmed x t)
append_atomic_example =
    append_atomic segment payloads payloads segment-Represents segment-IsWhole (omega arith)

append-Grown_example :
    Post (Write.append payloads segment) (λ _ t. Grown 19 segment t) (λ _ t. Grown 0 segment t)
append-Grown_example = append-Grown payloads segment

find_exact_example : find segment 6 ≡ (
    if ltb 6 (base_sequence segment + 0) || ltb (base_sequence segment + 1) 6
    then err out_of_bounds
    else ok (6 - base_sequence segment, offset_at payloads (6 - base_sequence segment)))
find_exact_example =
    find_exact segment payloads segment-Represents (file_of-IsReadable _) 6 (omega arith)
      (omega (arith, base))

truncate_exact_example :
    Post
      (Write.truncate 5 segment)
      (λ _ t. Represents t (take (5 - base_sequence segment) payloads) × CutEnds segment t)
      (λ _ t. Layout t.file.bytes (take (5 - base_sequence segment) payloads))
truncate_exact_example =
    truncate_exact segment payloads 5 segment-Represents (file_of-IsReadable _)
      (omega (arith, base)) (omega (arith, base)) (omega (arith, base))

index_for_offset-exact_example : index_for_offset segment (offset_at payloads 1) ≡ ok 1
index_for_offset-exact_example =
    index_for_offset-exact segment payloads (held segment-Represents) (file_of-IsReadable _) 1
      (omega arith)

next_exact_example : Scanner.next segment (new_scanner segment max_uint32) ≡ (
  true,
  record (new_scanner segment max_uint32) {
    borrowed = some (frame_of 0 payload);
    offset = 83;
    index = 1;
  },
)
unfolding new_scanner
next_exact_example =
    next_exact segment [] payload [] segment-Represents (file_of-IsReadable _)
      (new_scanner segment max_uint32) refl refl refl refl

-- The same segment with the first four bytes of another frame behind it.
abbrev pub cut_file : File
cut_file = file_of (first_header ++ (frames 0 payloads ++ take 4 (encode 1 payload)))

abbrev pub cut_file-IsCutFile : IsCutFile cut_file payloads payload 4
cut_file-IsCutFile = record {
  readable = file_of-IsReadable _;
  head = first_header;
  shape = refl;
  head_length = length-new_header 5;
  fits = (omega arith, tt);
  last_fits = omega arith;
  small = omega arith;
  cut = omega arith;
}

load_frames-recovers_example :
    (s : Segment) × (load_frames cut_file first_header true (first_slot 5) ≡ ok (ending 4 s))
    × Represents s payloads
    × (s.start_index ≡ 0)
    × (s.header ≡ first_header)
    × (s.meta ≡ first_slot 5)
    × (s.sync_on_append ≡ true)
load_frames-recovers_example =
    load_frames-recovers cut_file payloads payload 4 cut_file-IsCutFile first_header true
      (first_slot 5) 0 (omega arith)
      ((first_slot_fields 5).0 ∙ ap ok (sym (offset_at-zero payloads)))

read-encode_example :
    read (file_of (encode 0 payload ++ [])) 2 0 0
    ≡ ok (record { header = FrameHeader.new_header 0 payload; payload = 1 ∷ 2 ∷ [] })
read-encode_example =
    read-encode (file_of (encode 0 payload ++ [])) (file_of-IsReadable _) [] payload [] 0 0 refl
      refl (omega arith) (omega arith) (omega arith)

read-torn_example : read (file_of (take 17 (encode 0 payload))) max_uint32 0 0 ≡ err (torn_error 17)
read-torn_example =
    read-torn (file_of (take 17 (encode 0 payload))) (file_of-IsReadable _) [] payload 17 0 0 refl
      refl (omega arith) (omega arith) (omega arith)

validate-new_header_example : validate (FrameHeader.new_header 7 payload) payload ≡ none
validate-new_header_example = validate-new_header 7 payload (omega arith)

-- The offset index, with checkpoints of two frames.
abbrev checkpoints : OffsetIndex
checkpoints = record { index = 0; offset = 64 } ∷ record { index = 256; offset = 9000 } ∷ []

checkpoints-IsOrdered : IsOrdered checkpoints
checkpoints-IsOrdered = ((omega arith, tt), (tt, tt))

set_update_example :
    IsOrdered (set 3 121 checkpoints)
    × ((j : ℕ)
        → lookup j (set 3 121 checkpoints) ≡ (if 3 == j then some 121 else lookup j checkpoints))
set_update_example = set_update 3 121 checkpoints checkpoints-IsOrdered

for_frame_index-floor_example : for_frame_index 300 checkpoints ≡ floor 300 checkpoints
for_frame_index-floor_example = for_frame_index-floor 300 checkpoints checkpoints-IsOrdered

truncate_after_exact_example :
    IsOrdered (truncate_after 100 checkpoints)
    × Holds (λ k _. k ≤ 100) (truncate_after 100 checkpoints)
    × ((j : ℕ)
        → lookup j (truncate_after 100 checkpoints)
          ≡ (if leb j 100 then lookup j checkpoints else none))
truncate_after_exact_example =
    truncate_after_exact 100 (record { index = 0; offset = 64 })
      (record { index = 256; offset = 9000 } ∷ []) checkpoints-IsOrdered (omega arith)

abbrev from_three : ℕ → Bool
from_three k = leb 3 k

from_three_mono : (i j : ℕ) → i ≤ j → j < 5 → from_three i ≡ true → from_three j ≡ true
from_three_mono i j p q h = ground arith

from_three-IsEdge : IsEdge 5 from_three 3
from_three-IsEdge = record {
  bound = omega arith;
  below = λ k e. let z : k ≡ 2 = omega arith in rw z refl;
  here = λ _. refl;
}

search_unique_example : search 5 from_three ≡ 3
search_unique_example = search_unique 5 from_three from_three_mono 3 from_three-IsEdge

-- The metadata slots of a new segment
pub first_slot-IsSlot : IsSlot (first_slot 5)
first_slot-IsSlot =
    ((unfold first_slot Header.new_header in refl), omega (arith, (first_slot_fields 5).1))

pub first_slot-IsCurrent : IsCurrent (first_slot 5) first_header
unfolding first_slot Header.new_header
first_slot-IsCurrent =
    first (slice 0 16 first_header) (slice 32 16 first_header) (slice 48 16 first_header) refl refl
      refl (ap (λ n. n % 2) (first_slot_fields 5).1)
      (λ e. absurd (let bad = (first_slot_fields 5).3 in cc))

meta-IsCurrent_example : meta first_header ≡ ok (first_slot 5)
meta-IsCurrent_example =
    meta-IsCurrent (first_slot 5) first_header first_slot-IsSlot.0 (first_slot_fields 5).2
      first_slot-IsCurrent

torn-IsCurrent_example :
    IsCurrent
      (first_slot 5)
      (splice (slot_offset (first_slot 5)) (slice 32 16 first_header) first_header)
torn-IsCurrent_example =
    torn-IsCurrent (first_slot 5) first_header (slice 32 16 first_header) first_slot-IsSlot.0
      first_slot-IsCurrent (unfold Header.new_header in refl) (first_slot_fields 5).3

next-IsCurrent_example :
    IsCurrent
      (next_slot 83 (first_slot 5))
      (splice (slot_offset (first_slot 5)) (next_slot 83 (first_slot 5)) first_header)
    × (slot_valid (next_slot 83 (first_slot 5)) ≡ true)
    × (meta (splice (slot_offset (first_slot 5)) (next_slot 83 (first_slot 5)) first_header)
        ≡ ok (next_slot 83 (first_slot 5)))
next-IsCurrent_example =
    next-IsCurrent 83 (first_slot 5) first_header first_slot-IsSlot first_slot-IsCurrent

read_offset-next_slot_example : read_offset (next_slot 83 (first_slot 5)) ≡ ok 83
read_offset-next_slot_example =
    read_offset-next_slot 83 (first_slot 5) first_slot-IsSlot.0 (omega arith)

-- A chain of the segment, with room for one more
abbrev pub chain : Chain
chain = record {
  fs = record {
    names = [];
    outcomes = [];
    scripts = [];
    read_fault = λ _. none;
    location = some true;
    listing = [];
    contents = λ _. err Errors.not_exist;
  };
  directory = 100 ∷ [];
  segments = segment ∷ [];
  chain_start = 5;
  disk_size = 83;
  max_disk_size = pos 1000;
  max_segments = pos 2;
  max_segment_size = pos 90;
  sync_on_append = true;
}

pub chain-Sound : Sound chain
chain-Sound = record { contiguous = tt; accounted = refl }

append_within_limits_example :
    Post (Append.append payloads chain) (Admitted payloads chain) (λ _ d. Kept chain d)
append_within_limits_example = append_within_limits chain payload [] chain-Sound

make_room-Loop_example : Loop 40 chain (Append.make_room 1 40 chain)
make_room-Loop_example = make_room-Loop 1 40 chain (omega arith)

kept : keep_index 5 (segment ∷ []) ≡ some 0
unfolding keep_index search search_loop next_sequence start_sequence base_sequence
    Header.start_sequence Header.new_header
kept = refl

keep_index-Contains_example : Contains 5 (segment ∷ []) 0
keep_index-Contains_example = keep_index-Contains 5 (segment ∷ []) 0 kept

-- A writer on a target that numbers payloads
abbrev pub count : List Bytes → Exec ℕ ℕ
count ps n = (ok (n + length ps - 1), n + length ps)

abbrev pub options : Options
options = record { max_length = pos 2; max_size = pos 100 }

abbrev pub idle : Writer ℕ
idle = record {
  log = 0;
  batch = [];
  size = 0;
  timer = Timer.new_lazy_timer;
  running = true;
  responses = [];
}

abbrev pub request : ℕ → Request
request n = record { caller = n; payload = payload }

abbrev busy : Writer ℕ
busy = stop count options (receive count options (request 9) idle)

busy-Runs : Runs count options idle (9 ∷ []) busy
unfolding receive
busy-Runs = receives (request 9) refl (stops refl (halt _))

queue-Runs_example : queue count options busy ≡ queue count options idle ++ 9 ∷ []
queue-Runs_example = queue-Runs count options idle busy (9 ∷ []) busy-Runs

answers-at_example :
    get_elem? (answers (request 7 ∷ request 8 ∷ []) (ok 11)) 1
    ≡ some (record { caller = 8; result = ok 11 })
answers-at_example =
    answers-at (request 7 ∷ request 8 ∷ []) 11 1 (request 8) (omega arith) (omega arith) refl
