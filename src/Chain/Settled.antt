-- ===== src/Chain/Settled.antt =====
-- The end of Load: the torn segment is trimmed and the sizes are summed, or the first segment made.
use alog.Common.{
  inr, inl, ◌+◌, arith, ◌⊎◌, suc, ◌≡◌, refl, sym, ap, ◌∙◌, List, [], ◌∷◌, length, Bool, true, false,
  not, ◌&&◌, ◌==◌, ==_iff, if_both,
}
use alog.Errors.{disk_full, wrap}
use alog.Exec.{Result, ok, err, Exec, Done}
use alog.Exec.Post.{Post-wrapped, Post, Post_mono, Post-bind}
use alog.Segment.State.{size, Segment, start_sequence, next_sequence}
use alog.Segment.Write
use alog.Segment.Growth.{Grown-Only, trim-Only}
use alog.Chain.State.{Chain, exceeds, last_segment, set_last}
use alog.Chain.Files.{create, segment_file_name, FileSystem, join_path}
use alog.Chain.Directory.{
  marked_last, is_marked, Marked, Opening, unmarked, contiguous, on_directory,
}
use alog.Chain.Load.{
  trim_last, account, sizes, settle_loaded, create_first, settle_with, trim_marked, trim_with,
  set_marked_last,
}
use alog.Segment.Header.{Int64, pos, negsuc}
use alog.Chain.Created.{create-size}
use alog.Chain.Sound.{
  total, Sound, Follow, Contiguous, SameLimits, Contiguous-Grown, length-set_last,
}
use alog.Chain.Checked.{check-Post, Checked, not-true}

-- The segments follow on from each other, and there are not too many.
record Ready (c : Chain) (o : Opening) : Type 0 where
  limits : SameLimits c o.chain
  count : exceeds (length (unmarked o.marked)) c.max_segments ≡ false
  follows : Contiguous (unmarked o.marked)

length-unmarked : (ms : List Marked) → length (unmarked ms) ≡ length ms
length-unmarked [] = refl
length-unmarked ((s, b) ∷ ms) = ap suc (length-unmarked ms)

and-left : (a b : Bool) → a && b ≡ true → a ≡ true
and-left true b h = refl
and-left false b h = absurd (let e = h in cc)

and-right : (a b : Bool) → a && b ≡ true → b ≡ true
and-right true b h = h
and-right false b h = absurd (let e = h in cc)

contiguous-Follow :
    (s : Segment) (b : Bool) (ms : List Marked)
    → contiguous ((s, b) ∷ ms) ≡ true
    → Follow s (unmarked ms)
contiguous-Follow s b [] h = tt
contiguous-Follow s b ((t, d) ∷ ms) h = (
  (==_iff (next_sequence s) (start_sequence t)).0 (and-left _ _ h),
  contiguous-Follow t d ms (and-right (next_sequence s == start_sequence t) _ h),
)

Checked-Ready :
    (c : Chain) (o : Opening) (m : Marked) (ms : List Marked)
    → o.marked ≡ m ∷ ms
    → Checked c o
    → Ready c o
Checked-Ready c o (s, b) ms e h = record {
  limits = h.limits;
  count = ap (λ n. exceeds n c.max_segments) (length-unmarked o.marked) ∙ h.count;
  follows = rw e (contiguous-Follow s b ms (ap contiguous (sym e) ∙ h.follows));
}

unmarked-set_marked_last :
    (t : Segment) (ms : List Marked) → unmarked (set_marked_last t ms) ≡ set_last t (unmarked ms)
unmarked-set_marked_last t [] = refl
unmarked-set_marked_last t ((s, b) ∷ []) = refl
unmarked-set_marked_last t ((s, b) ∷ (u, d) ∷ ms) =
    ap (λ l. s ∷ l) (unmarked-set_marked_last t ((u, d) ∷ ms))

trim_with-Ready :
    (c : Chain) (o : Opening) (r : Result Segment)
    → last_segment (unmarked o.marked) ≡ r
    → Ready c o
    → Post (trim_with r o) (λ _ p. Ready c p) (λ _ _. Unit)
trim_with-Ready c o (err e) q h = record { holds = tt }
trim_with-Ready c o (ok s) q h = go (Write.trim s) (trim-Only s)
  where
    go :
        (x : Result Done × Segment)
        → Post x (λ _ t. t ≡ record s { file = t.file }) (λ _ t. t ≡ record s { file = t.file })
        → Post
            (x.0, record o { marked = set_marked_last x.1 o.marked })
            (λ _ p. Ready c p)
            (λ _ _. Unit)
    go (err e, t) d = record { holds = tt }
    go (ok a, t) d =
        let same : unmarked (set_marked_last t o.marked) ≡ set_last t (unmarked o.marked) =
          unmarked-set_marked_last t o.marked in
        record {
          holds = record {
            limits = h.limits;
            count =
                ap (λ n. exceeds n c.max_segments)
                  (ap length same ∙ length-set_last t (unmarked o.marked))
                ∙ h.count;
            follows =
                rw same
                  (Contiguous-Grown (unmarked o.marked) s t 0 h.follows q (Grown-Only s t d.holds));
          };
        }

trim_marked-Ready :
    (c : Chain) (o : Opening)
    → Ready c o
    → Post (trim_marked o.marked o) (λ _ p. Ready c p) (λ _ _. Unit)
trim_marked-Ready c o h =
    if_both (λ (m : Exec Opening Done). Post (m o) (λ _ p. Ready c p) (λ _ _. Unit))
      (not (is_marked o.marked)) (λ _. record { holds = h })
      (λ _.
        if_both (λ (m : Exec Opening Done). Post (m o) (λ _ p. Ready c p) (λ _ _. Unit))
          (not (marked_last o.marked)) (λ _. record { holds = tt })
          (λ _.
            Post-wrapped trim_last o
              (trim_with-Ready c o (last_segment (unmarked o.marked)) refl h)))

sizes-eq-total : (ms : List Marked) → sizes ms ≡ total (unmarked ms)
sizes-eq-total [] = refl
sizes-eq-total ((s, b) ∷ ms) = ap (λ n. size s + n) (sizes-eq-total ms)

-- The chain is loaded: its segments follow on from each other and are accounted for, there are not
-- more than the limit, and unless the chain is new the disk size is within its limit.
pub record Opened (c d : Chain) : Type 0 where
  pub sound : Sound d
  pub limits : SameLimits c d
  pub within_count : exceeds (length d.segments) c.max_segments ≡ false
  pub within_disk : (exceeds d.disk_size c.max_disk_size ≡ false) ⊎ (d.disk_size ≡ 64)

abbrev pub closing : Opening → Chain
closing o = record o.chain { segments = unmarked o.marked }

settle_loaded-Opened :
    (c : Chain) (o : Opening)
    → Ready c o
    → Post (settle_loaded o) (λ _ p. Opened c (closing p)) (λ _ _. Unit)
unfolding settle_loaded
settle_loaded-Opened c o h =
    Post-bind (trim_marked o.marked) _ o {R = λ _ p. Ready c p} (trim_marked-Ready c o h) λ _ p k.
      Post_mono _
        (check-Post (not (exceeds (sizes p.marked) p.chain.max_disk_size)) (wrap disk_full)
          (account p))
        (λ _ q (e, room). rw e (record {
          sound = record { contiguous = k.follows; accounted = sizes-eq-total p.marked };
          limits = record {
            same_disk = k.limits.same_disk;
            same_count = k.limits.same_count;
            same_segment = k.limits.same_segment;
          };
          within_count = k.count;
          within_disk =
              inl (ap (exceeds (sizes p.marked)) (sym k.limits.same_disk) ∙ not-true _ room);
        }))
        (λ _ _ _. tt)

pub exceeds-one : (l : Int64) → exceeds 1 l ≡ false
exceeds-one (pos n) = ground arith
exceeds-one (negsuc n) = refl

pub exceeds-zero : (l : Int64) → exceeds 0 l ≡ false
exceeds-zero (pos n) = ground arith
exceeds-zero (negsuc n) = refl

on_directory-Value :
    {A : Type 0} (c : Chain) (m : Exec FileSystem A) (o : Opening) {P : A → Type 0}
    → SameLimits c o.chain
    → Post (m o.chain.fs) (λ a _. P a) (λ _ _. Unit)
    → Post (on_directory m o) (λ a p. P a × SameLimits c p.chain) (λ _ _. Unit)
on_directory-Value c m o h v = go (m o.chain.fs) v
  where
    go :
        {A : Type 0} (x : Result A × FileSystem) {P : A → Type 0}
        → Post x (λ a _. P a) (λ _ _. Unit)
        → Post
            (x.0, record o { chain = record o.chain { fs = x.1 } })
            (λ a p. P a × SameLimits c p.chain)
            (λ _ _. Unit)
    go (ok a, fs) v = record {
      holds = (
        v.holds,
        record {
          same_disk = h.same_disk;
          same_count = h.same_count;
          same_segment = h.same_segment;
        },
      );
    }
    go (err e, fs) v = record { holds = tt }

create_first-Opened :
    (c : Chain) (o : Opening)
    → SameLimits c o.chain
    → Post (create_first o) (λ _ p. Opened c (closing p)) (λ _ _. Unit)
unfolding create_first
create_first-Opened c o h =
    let n = o.chain.chain_start in
    let path = join_path o.chain.directory (segment_file_name n) in
    let make : Exec FileSystem Segment = create path n o.chain.sync_on_append in
    Post-bind (on_directory make) _ o {R = λ s p. (size s ≡ 64) × SameLimits c p.chain}
      (on_directory-Value c make o h (create-size path n o.chain.sync_on_append o.chain.fs))
      λ s p (small, k). record {
        holds = record {
          sound = record { contiguous = tt; accounted = omega arith };
          limits = record {
            same_disk = k.same_disk;
            same_count = k.same_count;
            same_segment = k.same_segment;
          };
          within_count = exceeds-one c.max_segments;
          within_disk = inr small;
        };
      }

pub settle-Opened :
    (c : Chain) (o : Opening) (ms : List Marked)
    → o.marked ≡ ms
    → Checked c o
    → Post (settle_with ms o) (λ _ p. Opened c (closing p)) (λ _ _. Unit)
settle-Opened c o [] e h = create_first-Opened c o h.limits
settle-Opened c o (m ∷ ms) e h = settle_loaded-Opened c o (Checked-Ready c o m ms e h)
