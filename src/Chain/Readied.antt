-- ===== src/Chain/Readied.antt =====
-- The chain that the loop of Append and the rotation leave: it is ready for the batch.
use alog.Common.{
  [], suc, ◌≤◌, ◌⊎◌, inl, inr, length-append, ◌∷◌, ◌&&◌, ℕ, ◌+◌, ◌<◌, ◌^◌, ◌≡◌, refl, sym, ap, ◌∙◌,
  arith, length, Bool, true, false, ◌||◌,
}
use alog.Exec.{Result, ok, err, Exec}
use alog.Exec.Post.{Post, Post_mono, Post-bind}
use alog.Segment.Header.{header_size, Int64, pos, negsuc}
use alog.Segment.State.{Segment, size, next_sequence}
use alog.Chain.State.{Chain, last_segment, on_fs, exceeds, reaches}
use alog.Chain.Files.{FileSystem, create, segment_file_name, join_path}
use alog.Chain.Append.{required, disk_exceeded, rotated, rotate_if, add_segment}
use alog.Chain.Sound.{last_segment-add, Contiguous-add, Sound, total-append}
use alog.Chain.Reap.{Kept, Kept-trans, Kept-fs, Roomy}
use alog.Chain.Created.{IsFirst, create-IsFirst}

-- There are not more segments than the limit, or not more than before.
abbrev pub WithinCount : Chain → Chain → Type 0
WithinCount c d =
    (exceeds (length d.segments) c.max_segments ≡ false) ⊎ (length d.segments ≤ length c.segments)

-- The chain is ready for a batch of `n` bytes: its last segment has room for them.
pub record Ready (n : ℕ) (c d : Chain) : Type 0 where
  pub kept : Kept c d
  pub last : Segment
  pub is_last : last_segment d.segments ≡ ok last
  pub tail : Segment
  pub was_tail : last_segment c.segments ≡ ok tail
  pub goes_on : next_sequence last ≡ next_sequence tail
  pub fits_segment : exceeds (size last + n) c.max_segment_size ≡ false
  pub fits_disk : exceeds (d.disk_size + n) c.max_disk_size ≡ false
  pub fits_count : WithinCount c d

clear_disk : (a b : Bool) → a || b ≡ false → b ≡ false
clear_disk false b h = h
clear_disk true b h = absurd (let e = h in cc)

clear_count : (a b : Bool) → a || b ≡ false → a ≡ false
clear_count false b h = refl
clear_count true b h = absurd (let e = h in cc)

-- One segment more than what does not reach the limit
exceeds-suc : (n : ℕ) (l : Int64) → reaches n l ≡ false → exceeds (suc n) l ≡ false
exceeds-suc n (pos m) h = ground arith
exceeds-suc n (negsuc m) h = refl

on_fs-kept :
    {A : Type 0} (m : Exec FileSystem A) (c : Chain) {P : A → Type 0}
    → Post (m c.fs) (λ a _. P a) (λ _ _. Unit)
    → Post
        (on_fs m c)
        (λ a d. P a × (d ≡ record c { fs = d.fs }))
        (λ _ d. d ≡ record c { fs = d.fs })
on_fs-kept m c h = go (m c.fs) h
  where
    go :
        {A : Type 0} (x : Result A × FileSystem) {P : A → Type 0}
        → Post x (λ a _. P a) (λ _ _. Unit)
        → Post
            (x.0, record c { fs = x.1 })
            (λ a d. P a × (d ≡ record c { fs = d.fs }))
            (λ _ d. d ≡ record c { fs = d.fs })
    go (ok a, fs) h = record { holds = (h.holds, refl) }
    go (err e, fs) h = record { holds = refl }

-- A new segment behind the last one
add_segment-Kept :
    (c : Chain) (last t : Segment)
    → Sound c
    → last_segment c.segments ≡ ok last
    → IsFirst (next_sequence last) t
    → Kept c (add_segment t c)
unfolding add_segment
add_segment-Kept c last t h e first = record {
  sound = record {
    contiguous = Contiguous-add c.segments last t h.contiguous e (sym first.starts);
    accounted = omega (arith, h.accounted, total-append c.segments t);
  };
  limits = record { same_disk = refl; same_count = refl; same_segment = refl };
}

pub exceeds_eq : {a b : ℕ} (l m : Int64) → a ≡ b → l ≡ m → exceeds a l ≡ exceeds b m
exceeds_eq {a} {b} l m e d = ap (λ x. exceeds x l) e ∙ ap (exceeds b) d

next_bound : (s : Segment) → next_sequence s < 2 ^ 64
unfolding next_sequence
next_bound s = omega arith

added-Ready :
    (n : ℕ) (c d : Chain) (r : Roomy n c true d)
    → exceeds (header_size + n) c.max_segment_size ≡ false
    → (t : Segment) (u : Chain) → IsFirst (next_sequence r.last) t
    → u ≡ record d { fs = u.fs }
    → Ready n c (add_segment t u)
unfolding add_segment
added-Ready n c d r room t u first same =
    let kept : Kept d u = Kept-fs d u r.kept.sound same in
    let disk : u.disk_size ≡ d.disk_size = ap (λ (x : Chain). x.disk_size) same in
    record {
      kept = Kept-trans c d _ r.kept (
          Kept-trans d u _ kept (
            add_segment-Kept u r.last t kept.sound
              (ap last_segment (ap (λ (x : Chain). x.segments) same) ∙ r.is_last) first));
      last = t;
      is_last = last_segment-add u.segments t;
      tail = r.last;
      was_tail = r.same_tail;
      goes_on = first.next;
      fits_segment =
          exceeds_eq c.max_segment_size c.max_segment_size (ap (λ x. x + n) first.empty) refl
          ∙ room;
      fits_disk =
          exceeds_eq {b = d.disk_size + required n true} c.max_disk_size d.max_disk_size
            (omega (arith, disk, first.empty)) (sym r.kept.limits.same_disk)
          ∙ clear_disk (true && reaches (length d.segments) d.max_segments) (disk_exceeded n true d)
              r.clear;
      fits_count = inl (
          exceeds_eq c.max_segments d.max_segments
            (length-append u.segments (t ∷ [])
              ∙ omega (arith, ap (λ (x : Chain). length x.segments) same))
            (sym r.kept.limits.same_count)
          ∙ exceeds-suc (length d.segments) d.max_segments (
              clear_count (reaches (length d.segments) d.max_segments) (disk_exceeded n true d)
                r.clear));
    }

rotated-Ready :
    (n : ℕ) (c d : Chain)
    → Roomy n c true d
    → exceeds (header_size + n) c.max_segment_size ≡ false
    → Post (rotated d) (λ _ u. Ready n c u) (λ _ u. Kept c u)
unfolding rotated
rotated-Ready n c d r room =
    let next = next_sequence r.last in
    let path = join_path d.directory (segment_file_name next) in
    let make : Exec FileSystem Segment = create path next d.sync_on_append in
    rw r.is_last (
      Post-bind (on_fs make) _ d {R = λ t u. IsFirst next t × (u ≡ record d { fs = u.fs })}
        (Post_mono _
          (on_fs-kept make d (create-IsFirst path next d.sync_on_append d.fs (next_bound r.last)))
          (λ _ u x. x) (λ _ u x. Kept-trans c d u r.kept (Kept-fs d u r.kept.sound x)))
        λ t u (first, same). record { holds = added-Ready n c d r room t u first same })

pub rotate_if-Ready :
    (n : ℕ) (c d : Chain) (b : Bool)
    → Roomy n c b d
    → exceeds (header_size + n) c.max_segment_size ≡ false
    → Post (rotate_if b d) (λ _ u. Ready n c u) (λ _ u. Kept c u)
rotate_if-Ready n c d true r room = rotated-Ready n c d r room
rotate_if-Ready n c d false r room = record {
  holds = record {
    kept = r.kept;
    last = r.last;
    is_last = r.is_last;
    tail = r.last;
    was_tail = r.same_tail;
    goes_on = refl;
    fits_segment =
        exceeds_eq c.max_segment_size d.max_segment_size refl (sym r.kept.limits.same_segment)
        ∙ sym r.decided;
    fits_disk =
        exceeds_eq c.max_disk_size d.max_disk_size refl (sym r.kept.limits.same_disk)
        ∙ clear_disk false (disk_exceeded n false d) r.clear;
    fits_count = inr r.fewer;
  };
}
