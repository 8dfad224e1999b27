-- ===== src/Chain/Refined.antt =====
-- Append on a chain, on the list of payloads that it holds.
use mathlib.Core.Path.{subst}
use alog.Common.{ℕ, ◌+◌, ◌^◌, ◌≤◌, ◌<◌, ◌≡◌, sym, ap, arith, List, ◌∷◌, none, length, Bool, if_both}
use alog.Exec.{Exec, ◌>>◌}
use alog.Exec.Post.{Post, Post_mono, Post-bind, Post-and}
use alog.Bytes.{Bytes}
use alog.Segment.Header.{header_size}
use alog.Segment.State.{Segment, append_size}
use alog.Chain.State.{Chain, exceeds}
use alog.Chain.Append.{make_room, append_batch, append, rotate_if, append_last}
use alog.Chain.Fuel.{make_room-alone}
use alog.Chain.Sound.{Sound}
use alog.Chain.Reap.{Roomy, make_room-Roomy}
use alog.Chain.Contents.{Sealed, Sealed-Held, Lines}
use alog.Chain.Last.{last_segment-LastOf}
use alog.Chain.Extended.{Shorter, make_room-Shorter}
use alog.Chain.Targets.{
  Extended, ExtendedBy, HasNumbers, Left, Shorter-Left, append_last-ExtendedBy, rotate_if-Target,
}

-- From the loop on, which has left `d` without `h.gone` of the oldest payloads
module _ (c : Chain) (n : ℕ) (qs : List Bytes) (p : Bytes) (ps : List Bytes)
    (lines : Lines c.segments n qs) (num : HasNumbers (length (p ∷ ps)) c) where
  made_room-ExtendedBy :
      (b : Bool) (d : Chain) (h : Shorter Sealed n qs d)
      → Roomy (append_size (p ∷ ps)) c b d
      → Post
          ((rotate_if b >> append_last (p ∷ ps)) d)
          (λ seq u. ExtendedBy h.gone n qs (p ∷ ps) seq u)
          (λ _ u. Left n qs u)
  made_room-ExtendedBy b d h r =
      let k : ℕ = length (p ∷ ps) in
      let l = last_segment-LastOf Sealed Sealed-Held c.segments num.last n qs num.is_last lines in
      let room : n + length qs + k < 2 ^ 64 =
        omega (arith, l.ends, l.holds.rep.count, num.numbers) in
      let same : num.last ≡ r.last = let a = num.is_last in let z = r.same_tail in cc in
      Post-bind (rotate_if b) _ d
        (rotate_if-Target n qs k d b r.last h r.is_last
          (omega (arith, num.indices, ap (λ (s : Segment). s.write_index) same)))
        λ _ u t. append_last-ExtendedBy n qs (p ∷ ps) h.gone u t (omega arith) room

  entire : ((off : ℕ) → c.fs.read_fault off ≡ none) → Shorter Sealed n qs c
  entire clean =
      let same_number : n + 0 ≡ n = omega arith in
      record {
        gone = 0;
        within = omega arith;
        contents = subst (λ m. Lines c.segments m qs) (sym same_number) lines;
        clean = clean;
      }

-- Append of a batch on contiguous segments whose readable payloads are `qs`, numbered from `n` on. If
-- it succeeds, the chain holds `qs` without some of the oldest and with the batch behind them, and the
-- number returned is that of the batch's last payload. If it fails, at whatever call of the file system
-- or of a file, the chain holds `qs` without some of the oldest. The files can be read and end where
-- their segments do, reads do not fail in new files, and the numbers and frame indices of the batch do
-- not wrap round.
pub append-Extended :
    (c : Chain) (n : ℕ) (qs : List Bytes) (p : Bytes) (ps : List Bytes)
    → Sound c
    → Lines c.segments n qs
    → ((off : ℕ) → c.fs.read_fault off ≡ none)
    → HasNumbers (length (p ∷ ps)) c
    → Post (append (p ∷ ps) c) (λ seq d. Extended n qs (p ∷ ps) seq d) (λ _ d. Left n qs d)
unfolding append append_batch
append-Extended c n qs p ps sound lines clean num =
    let k : ℕ = length (p ∷ ps) in
    let whole : Shorter Sealed n qs c = entire c n qs p ps lines num clean in
    if_both
      (λ (m : Exec Chain ℕ).
        Post (m c) (λ seq d. Extended n qs (p ∷ ps) seq d) (λ _ d. Left n qs d))
      (exceeds (header_size + append_size (p ∷ ps)) c.max_segment_size)
      (λ _. record { holds = Shorter-Left n qs k c whole })
      (λ _.
        Post-bind (make_room (length c.segments) (append_size (p ∷ ps))) _ c
          (Post_mono _
            (Post-and _ (make_room-Shorter n qs (length c.segments) (append_size (p ∷ ps)) c whole)
              (make_room-Roomy (length c.segments) (append_size (p ∷ ps)) c sound))
            (λ b d x. x) (λ _ d x. Shorter-Left n qs k d x.0))
          λ b d (h, r).
            Post_mono _ (made_room-ExtendedBy c n qs p ps lines num b d h r)
              (λ seq u x. record {
                gone = h.gone;
                within = h.within;
                contents = x.contents;
                number = x.number;
              })
              (λ _ u x. x))

-- With one segment nothing is removed.
pub append-Entire :
    (c : Chain) (n : ℕ) (qs : List Bytes) (p : Bytes) (ps : List Bytes)
    → Sound c
    → length c.segments ≤ 1
    → Lines c.segments n qs
    → ((off : ℕ) → c.fs.read_fault off ≡ none)
    → HasNumbers (length (p ∷ ps)) c
    → Post (append (p ∷ ps) c) (λ seq d. ExtendedBy 0 n qs (p ∷ ps) seq d) (λ _ _. Unit)
unfolding append append_batch entire
append-Entire c n qs p ps sound alone lines clean num =
    let whole : Shorter Sealed n qs c = entire c n qs p ps lines num clean in
    if_both
      (λ (m : Exec Chain ℕ). Post (m c) (λ seq d. ExtendedBy 0 n qs (p ∷ ps) seq d) (λ _ _. Unit))
      (exceeds (header_size + append_size (p ∷ ps)) c.max_segment_size) (λ _. record { holds = tt })
      (λ _.
        Post-bind (make_room (length c.segments) (append_size (p ∷ ps))) _ c
          {R = λ b d. (d ≡ c) × Roomy (append_size (p ∷ ps)) c b d}
          (Post_mono _
            (Post-and _ (make_room-alone (length c.segments) (append_size (p ∷ ps)) c alone)
              (make_room-Roomy (length c.segments) (append_size (p ∷ ps)) c sound))
            (λ b d x. x) (λ _ _ _. tt))
          λ b d (same, r).
            Post_mono _
              (subst
                (λ e.
                  Post ((rotate_if b >> append_last (p ∷ ps)) e)
                    (λ seq u. ExtendedBy 0 n qs (p ∷ ps) seq u) (λ _ u. Left n qs u))
                (sym same)
                (made_room-ExtendedBy c n qs p ps lines num b c whole
                  (subst (λ e. Roomy (append_size (p ∷ ps)) c b e) same r)))
              (λ _ _ x. x) (λ _ _ _. tt))
