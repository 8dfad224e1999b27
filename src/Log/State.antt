-- ===== src/Log/State.antt =====
-- pkg/log/log.go: the log, but for Load, Range and Consume. The calls that only pass on to the chain
-- keep its errors.
use alog.Common.{ℕ, ◌-◌, leb, List, [], ◌∷◌, Option, none, some, Bool, ◌||◌, if◌then◌else◌}
use alog.Errors.{Err, wrap, segment_full, disk_full, batch_too_large, is}
use alog.Exec.{Result, ok, err, Exec, Done}
use alog.Bytes.{Bytes}
use alog.Segment.State.{Segment, start_sequence, next_sequence}
use alog.Chain.State.{Chain, last_segment}
use alog.Chain.Append
use alog.Chain.Truncate

pub record Log : Type 0 where
  pub chain : Chain
  pub next_consume_seq : ℕ

abbrev pub on_chain : {A : Type 0} → Exec Chain A → Exec Log A
on_chain m l = let (r, c) = m l.chain in (r, record l { chain = c })

abbrev pub is_segment_full : Err → Bool
is_segment_full e = is e segment_full || is e batch_too_large

abbrev pub is_disk_full : Err → Bool
is_disk_full e = is e disk_full

abbrev pub is_batch_too_large : Err → Bool
is_batch_too_large e = is e batch_too_large

unfoldable pub head : Log → ℕ
head l = elim l.chain.segments [ [] ↦ 0 | s ∷ ss ↦ start_sequence s ]

-- The first and the last retained sequence number: `none` if there are no records.
abbrev pub bounds : List Segment → Option (ℕ × ℕ)
bounds [] = none
bounds (s ∷ ss) = elim (last_segment (s ∷ ss)) [
  | err e ↦ none
  | ok t ↦
      if leb (next_sequence t) (start_sequence s)
      then none
      else some (start_sequence s, next_sequence t - 1)
]

unfoldable pub first_sequence : Log → Option ℕ
first_sequence l = elim (bounds l.chain.segments) [ none ↦ none | some p ↦ some p.0 ]

unfoldable pub last_sequence : Log → Option ℕ
last_sequence l = elim (bounds l.chain.segments) [ none ↦ none | some p ↦ some p.1 ]

abbrev pub appended : Result ℕ → Result ℕ
appended (ok seq) = ok seq
appended (err e) = if is_segment_full e then err segment_full else err (wrap e)

unfoldable pub append : List Bytes → Exec Log ℕ
append [] l = (ok 0, l)
append (p ∷ ps) l = let (r, m) = on_chain (Append.append (p ∷ ps)) l in (appended r, m)

unfoldable pub sync : Exec Log Done
sync = on_chain Truncate.sync

unfoldable pub truncate_before : ℕ → Exec Log Done
truncate_before seq = on_chain (Truncate.truncate_before seq)

unfoldable pub truncate_after : ℕ → Exec Log Done
truncate_after seq = on_chain (Truncate.truncate_after seq)

unfoldable pub close : Exec Log Done
close = on_chain Truncate.close

unfoldable pub disk_size : Log → ℕ
disk_size l = l.chain.disk_size
