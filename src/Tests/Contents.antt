-- ===== src/Tests/Contents.antt =====
-- Small inputs for what a chain and a log hold.
use alog.Common.{
  ◌<◌, max, length, max, All, min, take, if◌then◌else◌, ltb, ◌≡◌, ◌+◌, ◌-◌, refl, ap, arith, ℕ,
  List, [], ◌∷◌, ◌++◌, drop,
}
use alog.Exec.{Exec, Done, ok}
use alog.Exec.Post.{Post}
use alog.Bytes.{Bytes}
use alog.Segment.Header.{pos}
use alog.Chain.Append
use alog.Chain.State.{Chain}
use alog.Chain.Contents.{Sealed, Lines}
use alog.Chain.Targets.{HasNumbers, Extended, Left}
use alog.Chain.Refined.{append-Extended}
use alog.Chain.Truncate
use alog.Chain.Anew.{Anew, truncate_after-Anew}
use alog.Chain.Onward.{HasSlot}
use alog.Chain.TruncatedBefore.{truncate_before-Lines}
use alog.Chain.Restarted.{From, set_read_offset-From}
use alog.Segment.Layout.{offset_at}
use alog.Segment.Write.{set_read_offset}
use alog.Chain.TruncatedAfter.{truncate_after-Lines}
use alog.Chain.Synced.{Safe, sync-Safe}
use alog.Stores.Wal
use alog.Stores.Durable.{Stored, append-Stored}
use alog.Log.State.{Log}
use alog.Log.Consume.{range, consume_start, consume}
use alog.Log.Next.{each}
use alog.Log.Sought.{range-each}
use alog.Log.Consumed.{accepted, Settled, head-Lines, consume-cursor}
use alog.Tests.{
  segment-IsWhole, first_slot-IsSlot, payload, payloads, file_of-IsReadable, segment,
  segment-Represents, base, chain, chain-Sound,
}

segment-Sealed : Sealed segment payloads
segment-Sealed = record {
  rep = segment-Represents;
  readable = file_of-IsReadable _;
  whole = segment-IsWhole;
  room = omega (arith, base);
}

chain-Lines : Lines (segment ∷ []) 5 payloads
chain-Lines = record {
  payloads = payloads;
  later = [];
  sealed = segment-Sealed;
  starts = omega (arith, base);
  split = refl;
  more = refl;
}

chain-HasNumbers : HasNumbers 1 chain
chain-HasNumbers = record {
  last = segment;
  is_last = refl;
  indices = omega arith;
  numbers = omega (arith, base);
}

append-Extended_example :
    Post
      (Append.append payloads chain)
      (λ seq d. Extended 5 payloads payloads seq d)
      (λ _ d. Left 5 payloads d)
append-Extended_example =
    append-Extended chain 5 payloads payload [] chain-Sound chain-Lines (λ _. refl) chain-HasNumbers

abbrev log : Log
log = record { chain = chain; next_consume_seq = 0 }

-- A callback that notes the numbers
abbrev note : ℕ → Bytes → Exec (List ℕ) Done
note seq p seen = (ok tt, seen ++ seq ∷ [])

range-each_example : range log 3 0 note [] ≡ each 0 note 5 payloads []
range-each_example = range-each log 3 0 5 payloads note [] chain-Lines

start : consume_start log 0 ≡ 5
start = ap (λ h. if ltb 0 h then h else 0) (head-Lines log segment [] 5 payloads refl chain-Lines)

consume-cursor_example :
    ((consume 0 note (log, [])).1.1
      ≡ (each 0 note (consume_start log 0) (drop (consume_start log 0 - 5) payloads) []).1)
    × Settled
        (each 0 note (consume_start log 0) (drop (consume_start log 0 - 5) payloads) []).0
        (consume_start log 0)
        (accepted note (consume_start log 0) (drop (consume_start log 0 - 5) payloads) [])
        log
        ((consume 0 note (log, [])).0, (consume 0 note (log, [])).1.0)
consume-cursor_example =
    consume-cursor log segment [] 5 payloads 0 note [] refl chain-Lines (omega (arith, start))

truncate_after-Lines_example :
    Post
      (Truncate.truncate_after 5 chain)
      (λ _ d. Lines d.segments 5 (take (5 + 1 - 5) payloads))
      (λ _ _. Unit)
truncate_after-Lines_example = truncate_after-Lines chain 5 payloads 5 chain-Lines (omega arith)

sync-Safe_example : Post (Truncate.sync chain) (λ _ d. Safe 5 payloads d) (λ _ _. Unit)
sync-Safe_example = sync-Safe chain 5 payloads chain-Lines

-- A write-ahead log
abbrev wal : Log
wal = record log { chain = record chain { max_segments = pos 1 } }

append-Stored_example :
    Post (Wal.append payloads wal) (λ seq m. Stored 5 payloads payloads seq m) (λ _ _. Unit)
append-Stored_example =
    append-Stored wal 5 payloads payload [] (record { contiguous = tt; accounted = refl }) refl
      (omega arith) chain-Lines (λ _. refl)
      (record {
        last = segment;
        is_last = refl;
        indices = omega arith;
        numbers = omega (arith, base);
      })

slots : All HasSlot (segment ∷ [])
slots = (first_slot-IsSlot.0, tt)

truncate_before-Lines_example :
    Post
      (Truncate.truncate_before 6 chain)
      (λ _ d.
        Lines d.segments (max 5 (min 6 (5 + 1))) (drop (6 - 5) payloads) × (0 < length d.segments))
      (λ _ _. Unit)
truncate_before-Lines_example =
    truncate_before-Lines chain 5 payloads 6 chain-Lines (omega arith) slots

set_read_offset-From_example :
    Post
      (set_read_offset (offset_at payloads 1) segment)
      (λ _ t. From segment payloads 1 t)
      (λ _ _. Unit)
set_read_offset-From_example =
    set_read_offset-From segment payloads 1 segment-Sealed first_slot-IsSlot.0 (omega arith)

-- A chain whose directory has the file of its segment, so that it can be removed
abbrev listed : Chain
listed = record chain { fs = record chain.fs { names = segment.file.name ∷ [] } }

truncate_after-Anew_example :
    Post (Truncate.truncate_after 3 listed) (λ _ d. Anew listed d) (λ _ _. Unit)
truncate_after-Anew_example =
    truncate_after-Anew listed segment [] 5 payloads 3 refl chain-Lines (omega arith) (λ _. refl)
      (omega arith)
