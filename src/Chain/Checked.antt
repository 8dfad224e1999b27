-- ===== src/Chain/Checked.antt =====
-- The loops of Load over the directory, and the checks that follow them.
use alog.Common.{
  Option, some, none, ◌+◌, ◌==◌, ==_iff, arith, suc, ◌≡◌, refl, sym, ap, ◌∙◌, List, [], ◌∷◌, length,
  Bool, true, false, not, ltb, if_both,
}
use alog.Errors.{panic, Err, too_many_segments, not_contiguous}
use alog.Exec.{Result, ok, err, Exec}
use alog.Exec.Post.{Post, Post_mono, Post-bind}
use alog.Bytes.{Bytes}
use alog.Segment.State.{start_sequence}
use alog.Segment.Load.{Loaded}
use alog.Chain.State.{Chain, exceeds}
use alog.Chain.Files.{FileSystem, read_dir, join_path}
use alog.Chain.Directory.{
  Marked, Opening, contiguous, sorted, place, on_directory, load_file, load_files, prepare,
  segment_files, load_segment, taken_in, take_in,
}
use alog.Chain.Load.{check, order_loaded, load_many}
use alog.Chain.Sound.{SameLimits}

-- A step of which nothing is asked but that it keeps the limits
abbrev pub Keeps : {A : Type 0} → Chain → Exec Opening A → Type 0
Keeps c m =
    (o : Opening) → SameLimits c o.chain → Post (m o) (λ _ p. SameLimits c p.chain) (λ _ _. Unit)

pub on_directory-Keeps : {A : Type 0} (c : Chain) (m : Exec FileSystem A) → Keeps c (on_directory m)
on_directory-Keeps c m o h = go (m o.chain.fs)
  where
    go :
        {A : Type 0} (x : Result A × FileSystem)
        → Post
            (x.0, record o { chain = record o.chain { fs = x.1 } })
            (λ _ p. SameLimits c p.chain)
            (λ _ _. Unit)
    go (ok a, fs) = record {
      holds = record {
        same_disk = h.same_disk;
        same_count = h.same_count;
        same_segment = h.same_segment;
      };
    }
    go (err e, fs) = record { holds = tt }

-- A directory call changes no segments, whether it succeeds or fails.
pub on_directory-marked :
    {A : Type 0} (c : Chain) (m : Exec FileSystem A) (o : Opening)
    → SameLimits c o.chain
    → Post
        (on_directory m o)
        (λ _ p. SameLimits c p.chain × (p.marked ≡ o.marked))
        (λ _ p. SameLimits c p.chain × (p.marked ≡ o.marked))
on_directory-marked c m o h = go (m o.chain.fs)
  where
    go :
        {A : Type 0} (x : Result A × FileSystem)
        → Post
            (x.0, record o { chain = record o.chain { fs = x.1 } })
            (λ _ p. SameLimits c p.chain × (p.marked ≡ o.marked))
            (λ _ p. SameLimits c p.chain × (p.marked ≡ o.marked))
    go (ok a, fs) = record {
      holds = (
        record {
          same_disk = h.same_disk;
          same_count = h.same_count;
          same_segment = h.same_segment;
        },
        refl,
      );
    }
    go (err e, fs) = record {
      holds = (
        record {
          same_disk = h.same_disk;
          same_count = h.same_count;
          same_segment = h.same_segment;
        },
        refl,
      );
    }

taken_in-Keeps : (c : Chain) (r : Result (Option (List Marked))) → Keeps c (taken_in r)
taken_in-Keeps c (ok (some ms)) o h = record { holds = h }
taken_in-Keeps c (ok none) o h = record { holds = h }
taken_in-Keeps c (err e) o h = record { holds = tt }

module _ (c : Chain) (take : List Marked → Result Loaded → Result (Option (List Marked))) where
  load_file-Keeps : (name : Bytes) → Keeps c (load_file take name)
  load_file-Keeps name o h =
      go (load_segment o.chain.sync_on_append (join_path o.chain.directory name) o.chain.fs)
    where
      go :
          (x : Result Loaded × FileSystem)
          → (let p = record o { chain = record o.chain { fs = x.1 } } in
              Post (taken_in (take p.marked x.0) p) (λ _ q. SameLimits c q.chain) (λ _ _. Unit))
      go (r, fs) = taken_in-Keeps c (take o.marked r) _ (record {
        same_disk = h.same_disk;
        same_count = h.same_count;
        same_segment = h.same_segment;
      })

  pub load_files-Keeps : (names : List Bytes) → Keeps c (load_files take names)
  unfolding load_files
  load_files-Keeps [] o h = record { holds = h }
  load_files-Keeps (name ∷ names) o h =
      Post-bind (load_file take name) _ o {R = λ _ p. SameLimits c p.chain}
        (load_file-Keeps name o h) (λ _ p k. load_files-Keeps names p k)

pub check-Post :
    (b : Bool) (e : Err) (o : Opening)
    → Post (check b e o) (λ _ p. (p ≡ o) × (b ≡ true)) (λ _ _. Unit)
check-Post true e o = record { holds = (refl, refl) }
check-Post false e o = record { holds = tt }

length-place : (m : Marked) (ms : List Marked) → length (place m ms) ≡ suc (length ms)
length-place m [] = refl
length-place (s, b) ((t, d) ∷ ms) =
    if_both (λ x. length x ≡ suc (suc (length ms))) (ltb (start_sequence t) (start_sequence s))
      (λ _. ap suc (length-place (s, b) ms)) (λ _. refl)

length-sorted : (ms : List Marked) → length (sorted ms) ≡ length ms
length-sorted [] = refl
length-sorted (m ∷ ms) = length-place m (sorted ms) ∙ ap suc (length-sorted ms)

-- The segments have been checked.
pub record Checked (c : Chain) (o : Opening) : Type 0 where
  pub limits : SameLimits c o.chain
  pub count : exceeds (length o.marked) c.max_segments ≡ false
  pub follows : contiguous o.marked ≡ true

pub not-true : (b : Bool) → not b ≡ true → b ≡ false
not-true false h = refl
not-true true h = absurd (let e = h in cc)

order_loaded-Checked :
    (c : Chain) (u : Opening)
    → SameLimits c u.chain
    → Post (order_loaded u) (λ _ p. Checked c p) (λ _ _. Unit)
unfolding order_loaded
order_loaded-Checked c u m =
    Post-bind
      (check (not (exceeds (length u.marked + u.nils) u.chain.max_segments)) too_many_segments) _ u
      {R = λ _ v. (v ≡ u) × (not (exceeds (length u.marked + u.nils) u.chain.max_segments) ≡ true)}
      (check-Post _ too_many_segments u)
      λ _ v (same, few).
        Post-bind (check (v.nils == 0) panic) _ v {R = λ _ w. (w ≡ v) × ((v.nils == 0) ≡ true)}
          (check-Post _ panic v)
          λ _ w (again, clear).
            let nils : u.nils ≡ 0 =
              omega (arith, ap (λ (x : Opening). x.nils) same, (==_iff v.nils 0).0 clear) in
            let sum : length u.marked + u.nils ≡ length u.marked = omega (arith, nils) in
            Post_mono _
              (check-Post (contiguous (sorted w.marked)) not_contiguous
                (record w { marked = sorted w.marked }))
              (λ _ x (e, con). rw e (record {
                limits = rw (again ∙ same) m;
                count =
                    ap (λ n. exceeds n c.max_segments)
                      (length-sorted w.marked
                        ∙ ap (λ (y : Opening). length y.marked) (again ∙ same)
                        ∙ sym sum)
                    ∙ ap (exceeds (length u.marked + u.nils)) (sym m.same_count)
                    ∙ not-true _ few;
                follows = con;
              }))
              (λ _ _ _. tt)

pub load_many-Checked :
    (c : Chain) (o : Opening)
    → SameLimits c o.chain
    → Post (load_many o) (λ _ p. Checked c p) (λ _ _. Unit)
unfolding load_many
load_many-Checked c o h =
    Post-bind (on_directory prepare) _ o {R = λ _ p. SameLimits c p.chain}
      (on_directory-Keeps c prepare o h)
      λ _ p k.
        Post-bind (on_directory read_dir) _ p {R = λ _ q. SameLimits c q.chain}
          (on_directory-Keeps c read_dir p k)
          λ es q l.
            Post-bind (load_files take_in (segment_files es)) _ q {R = λ _ u. SameLimits c u.chain}
              (load_files-Keeps c take_in (segment_files es) q l)
              λ _ u m. order_loaded-Checked c u m
