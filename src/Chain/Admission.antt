-- ===== src/Chain/Admission.antt =====
-- Append on a chain: the invariant, the limits and the sequence numbers.
use mathlib.Core.Path.{subst}
use alog.Common.{
  ◌≤◌, ◌⊎◌, ◌%◌, ◌-◌, if_both, ◌∷◌, ℕ, ◌+◌, ◌^◌, ◌≡◌, refl, sym, ap, ◌∙◌, arith, List, length,
  false,
}
use alog.Exec.{Result, ok, err, Exec, Done}
use alog.Exec.Post.{Post, Post_mono, Post-bind}
use alog.Bytes.{Bytes}
use alog.Segment.Header.{header_size}
use alog.Segment.State.{Segment, size, next_sequence, append_size}
use alog.Segment.Write
use alog.Segment.Growth.{Grown, append-Grown}
use alog.Chain.State.{Chain, last_segment, set_last, exceeds}
use alog.Chain.Append.{make_room, append_batch, append, rotate_if, on_last, append_last}
use alog.Chain.Sound.{length-set_last, last_segment-grown, total-Grown, Contiguous-Grown, Sound}
use alog.Chain.Reap.{Kept-refl, make_room-Roomy, Kept, Kept-trans, Roomy}
use alog.Chain.Readied.{WithinCount, Ready, exceeds_eq, rotate_if-Ready}

-- The chain holds the batch, within its limits; `seq` is the number of its last payload.
pub record Admitted (ps : List Bytes) (c : Chain) (seq : ℕ) (d : Chain) : Type 0 where
  pub kept : Kept c d
  pub last : Segment
  pub is_last : last_segment d.segments ≡ ok last
  pub tail : Segment
  pub was_tail : last_segment c.segments ≡ ok tail
  pub number : seq ≡ (next_sequence tail + length ps + (2 ^ 64 - 1)) % 2 ^ 64
  pub within_segment : exceeds (size last) c.max_segment_size ≡ false
  pub within_disk : exceeds d.disk_size c.max_disk_size ≡ false
  pub within_count : WithinCount c d

-- The last segment grown by `n` bytes, of which `disk_size` knows
Grown-Kept :
    (d u : Chain) (last t : Segment) (n : ℕ)
    → Sound d
    → last_segment d.segments ≡ ok last
    → Grown n last t
    → u ≡ record d { segments = set_last t d.segments; disk_size = d.disk_size + n }
    → Kept d u
Grown-Kept d u last t n h e g same = rw same (record {
  sound = record {
    contiguous = Contiguous-Grown d.segments last t n h.contiguous e g;
    accounted = omega (arith, h.accounted, total-Grown d.segments last t n e g);
  };
  limits = record { same_disk = refl; same_count = refl; same_segment = refl };
})

pub on_last-Post :
    (last : Segment) (m : Exec Segment Done) (d : Chain) {P Q : Segment → Type 0}
    → Post (m last) (λ _ t. P t) (λ _ t. Q t)
    → Post
        (on_last last m d)
        (λ _ u. (t : Segment) × P t × (u ≡ record d { segments = set_last t d.segments }))
        (λ _ u. (t : Segment) × Q t × (u ≡ record d { segments = set_last t d.segments }))
on_last-Post last m d h = go (m last) h
  where
    go :
        (x : Result Done × Segment) {P Q : Segment → Type 0}
        → Post x (λ _ t. P t) (λ _ t. Q t)
        → Post
            (x.0, record d { segments = set_last x.1 d.segments })
            (λ _ u. (t : Segment) × P t × (u ≡ record d { segments = set_last t d.segments }))
            (λ _ u. (t : Segment) × Q t × (u ≡ record d { segments = set_last t d.segments }))
    go (ok a, t) h = record { holds = (t, h.holds, refl) }
    go (err e, t) h = record { holds = (t, h.holds, refl) }

append_last-Admitted :
    (ps : List Bytes) (c d : Chain)
    → Ready (append_size ps) c d
    → Post (append_last ps d) (Admitted ps c) (λ _ u. Kept c u)
unfolding append_last
append_last-Admitted ps c d r = rw r.is_last (
    Post-bind (on_last r.last (Write.append ps)) _ d
      {R = λ _ u.
        (t : Segment) × Grown (append_size ps) r.last t
        × (u ≡ record d { segments = set_last t d.segments })}
      (Post_mono _ (on_last-Post r.last (Write.append ps) d (append-Grown ps r.last)) (λ _ u x. x)
        (λ _ u (t, g, same). Kept-trans c d u r.kept (
          Grown-Kept d u r.last t 0 r.kept.sound r.is_last g (
            same
            ∙ ap (λ k. record d { segments = set_last t d.segments; disk_size = k })
                (let z : d.disk_size ≡ d.disk_size + 0 = omega arith in z)))))
      λ _ u (t, g, same). record {
        holds = record {
          kept = Kept-trans c d _ r.kept (
              Grown-Kept d _ r.last t (append_size ps) r.kept.sound r.is_last g
                (ap (λ (x : Chain). record x { disk_size = x.disk_size + append_size ps }) same));
          last = t;
          is_last =
              ap last_segment (ap (λ (x : Chain). x.segments) same)
              ∙ last_segment-grown d.segments r.last t r.is_last;
          tail = r.tail;
          was_tail = r.was_tail;
          number = ap (λ x. (x + length ps + (2 ^ 64 - 1)) % 2 ^ 64) r.goes_on;
          within_segment =
              exceeds_eq c.max_segment_size c.max_segment_size g.size_grown refl ∙ r.fits_segment;
          within_disk =
              exceeds_eq c.max_disk_size c.max_disk_size
                (ap (λ (x : Chain). x.disk_size + append_size ps) same) refl
              ∙ r.fits_disk;
          within_count =
              subst (λ (k : ℕ). (exceeds k c.max_segments ≡ false) ⊎ (k ≤ length c.segments))
                (sym (ap (λ (x : Chain). length x.segments) same ∙ length-set_last t d.segments))
                r.fits_count;
        };
      })

Admitted-Kept :
    (ps : List Bytes) (c : Chain)
    → Sound c
    → exceeds (header_size + append_size ps) c.max_segment_size ≡ false
    → Post (append_batch ps c) (Admitted ps c) (λ _ d. Kept c d)
unfolding append_batch
Admitted-Kept ps c h room =
    Post-bind (make_room (length c.segments) (append_size ps)) _ c {R = Roomy (append_size ps) c}
      (make_room-Roomy (length c.segments) (append_size ps) c h)
      λ b d r.
        Post-bind (rotate_if b) _ d {R = λ _ u. Ready (append_size ps) c u}
          (rotate_if-Ready (append_size ps) c d b r room) λ _ u x. append_last-Admitted ps c u x

-- Append of a batch keeps the segments contiguous and `disk_size` the sum of their sizes, whether it
-- succeeds or fails at any call of the file system or of a file. If it succeeds, the disk size and the
-- size of the last segment are within the limits that are set, the number of segments is within its
-- limit or has not grown, and the number returned is that of the batch's last payload when the payloads
-- are numbered on from the last segment's end.
pub append_within_limits :
    (c : Chain) (p : Bytes) (ps : List Bytes)
    → Sound c
    → Post (append (p ∷ ps) c) (Admitted (p ∷ ps) c) (λ _ d. Kept c d)
unfolding append
append_within_limits c p ps h =
    if_both (λ (m : Exec Chain ℕ). Post (m c) (Admitted (p ∷ ps) c) (λ _ d. Kept c d))
      (exceeds (header_size + append_size (p ∷ ps)) c.max_segment_size)
      (λ _. record { holds = Kept-refl c h }) (λ q. Admitted-Kept (p ∷ ps) c h q)
