-- ===== src/Chain/Opened.antt =====
-- The chain that Load leaves.
use alog.Common.{
  ◌==◌, zero, ℕ, if◌then◌else◌, ltb→le, arith, ◌≤◌, suc, ◌≡◌, refl, sym, ap, ◌∙◌, List, [], ◌∷◌,
  length, true, not, ltb, if_both,
}
use alog.Errors.{not_exist, is, Err, too_many_segments}
use alog.Exec.{Result, ok, err, Exec, Done}
use alog.Exec.Post.{Post-attempt, Post, Post_mono, Post-bind}
use alog.Bytes.{Bytes}
use alog.Segment.Write
use alog.Segment.Load.{torn, whole, Loaded}
use alog.Chain.State.{Chain, exceeds}
use alog.Chain.Files.{DirEntry, segment_file_name, FileSystem, read_dir, join_path}
use alog.Chain.Directory.{
  Marked, Opening, contiguous, on_directory, load_files, prepare, segment_files, load_segment,
}
use alog.Chain.Load.{
  take_strictly, is_single, settle, search_listed, load, found_single, open_all, opened,
  load_single, mark_first, check, load_many,
}
use alog.Chain.Sound.{SameLimits}
use alog.Chain.Checked.{
  on_directory-marked, load_files-Keeps, check-Post, Checked, not-true, load_many-Checked,
}
use alog.Chain.Truncate.{join_results, on_segment, close_range}
use alog.Errors.{join}
use alog.Chain.Settled.{Opened, closing, settle-Opened, exceeds-one, exceeds-zero}

-- With at most one segment there is nothing to check.
few-Checked : (c : Chain) (o : Opening) → SameLimits c o.chain → length o.marked ≤ 1 → Checked c o
few-Checked c o h few = go o.marked refl few
  where
    go : (ms : List Marked) → o.marked ≡ ms → length ms ≤ 1 → Checked c o
    go [] e k = record {
      limits = h;
      count =
          ap (λ (l : List Marked). exceeds (length l) c.max_segments) e
          ∙ exceeds-zero c.max_segments;
      follows = ap contiguous e;
    }
    go ((s, b) ∷ []) e k = record {
      limits = h;
      count =
          ap (λ (l : List Marked). exceeds (length l) c.max_segments) e
          ∙ exceeds-one c.max_segments;
      follows = ap contiguous e;
    }
    go (m ∷ n ∷ ms) e k = absurd (omega arith)

length-mark_first : (ms : List Marked) → length (mark_first ms) ≡ length ms
length-mark_first [] = refl
length-mark_first ((s, b) ∷ ms) = refl

-- A chain of one segment: at most one is loaded.
check_few :
    (c : Chain) (p : Opening) (e : Err)
    → SameLimits c p.chain
    → Post
        (check (not (ltb 1 (length p.marked))) e p)
        (λ _ q. SameLimits c q.chain × (length q.marked ≤ 1))
        (λ _ _. Unit)
check_few c p e h =
    Post_mono _ (check-Post (not (ltb 1 (length p.marked))) e p)
      (λ _ q (same, few). rw same (h, ltb→le 1 (length p.marked) (not-true _ few))) (λ _ _ _. tt)

search_listed-Few :
    (c : Chain) (r : Result (List DirEntry)) (o : Opening)
    → SameLimits c o.chain
    → o.marked ≡ []
    → Post (search_listed r o) (λ _ p. SameLimits c p.chain × (length p.marked ≤ 1)) (λ _ _. Unit)
search_listed-Few c (err e) o h none_yet =
    if_both
      (λ (m : Exec Opening Done).
        Post (m o) (λ _ p. SameLimits c p.chain × (length p.marked ≤ 1)) (λ _ _. Unit))
      (is e not_exist) (λ _. record { holds = (h, omega (arith, ap length none_yet)) })
      (λ _. record { holds = tt })
search_listed-Few c (ok es) o h none_yet =
    Post-bind (load_files take_strictly (segment_files es)) _ o {R = λ _ p. SameLimits c p.chain}
      (load_files-Keeps c take_strictly (segment_files es) o h)
      λ _ p k.
        Post-bind (check (not (ltb 1 (length p.marked))) too_many_segments) _ p
          {R = λ _ q. SameLimits c q.chain × (length q.marked ≤ 1)}
          (check_few c p too_many_segments k)
          λ _ q (l, few). record { holds = (l, omega (arith, length-mark_first q.marked)) }

found_single-Few :
    (c : Chain) (r : Result Loaded) (o : Opening)
    → SameLimits c o.chain
    → o.marked ≡ []
    → Post (found_single r o) (λ _ p. SameLimits c p.chain × (length p.marked ≤ 1)) (λ _ _. Unit)
found_single-Few c (ok (whole s)) o h none_yet =
    let one : Opening = record o { marked = (s, true) ∷ [] } in
    Post-bind (on_directory read_dir) _ one
      {R = λ _ p. SameLimits c p.chain × (p.marked ≡ (s, true) ∷ [])}
      (Post_mono _ (on_directory-marked c read_dir one h) (λ _ _ x. x) (λ _ _ _. tt))
      λ es p (k, only).
        Post_mono _ (check-Post (not (ltb 1 (length (segment_files es)))) too_many_segments p)
          (λ _ q (same, few). rw same (k, omega (arith, ap length only))) (λ _ _ _. tt)
found_single-Few c (ok (torn s e)) o h none_yet = record { holds = tt }
found_single-Few c (err e) o h none_yet =
    if_both
      (λ (m : Exec Opening Done).
        Post (m o) (λ _ p. SameLimits c p.chain × (length p.marked ≤ 1)) (λ _ _. Unit))
      (is e not_exist)
      (λ _.
        Post-attempt (on_directory read_dir) search_listed o
          {R = λ _ p. SameLimits c p.chain × (p.marked ≡ [])}
          {T = λ _ p. SameLimits c p.chain × (p.marked ≡ [])}
          (rw (sym none_yet) (on_directory-marked c read_dir o h))
          (λ es p (k, left). search_listed-Few c (ok es) p k left)
          (λ x p (k, left). search_listed-Few c (err x) p k left))
      (λ _. record { holds = tt })

load_single-Checked :
    (c : Chain) (o : Opening)
    → SameLimits c o.chain
    → o.marked ≡ []
    → Post (load_single o) (λ _ p. Checked c p) (λ _ _. Unit)
unfolding load_single
load_single-Checked c o h none_yet =
    Post-bind (on_directory prepare) _ o {R = λ _ p. SameLimits c p.chain × (p.marked ≡ o.marked)}
      (Post_mono _ (on_directory-marked c prepare o h) (λ _ _ x. x) (λ _ _ _. tt))
      λ _ p (k, same).
        let find : Exec FileSystem Loaded =
          load_segment p.chain.sync_on_append (join_path p.chain.directory (segment_file_name 0)) in
        Post_mono _
          (Post-attempt (on_directory find) found_single p
            {R = λ _ q. SameLimits c q.chain × (q.marked ≡ p.marked)}
            {T = λ _ q. SameLimits c q.chain × (q.marked ≡ p.marked)}
            (on_directory-marked c find p k)
            (λ l q (m, kept). found_single-Few c (ok l) q m (kept ∙ same ∙ none_yet))
            (λ e q (m, kept). found_single-Few c (err e) q m (kept ∙ same ∙ none_yet)))
          (λ _ q (m, few). few-Checked c q m few) (λ _ _ _. tt)

open_all-Opened :
    (c : Chain) (o : Opening)
    → SameLimits c o.chain
    → o.marked ≡ []
    → Post (open_all o) (λ _ p. Opened c (closing p)) (λ _ _. Unit)
unfolding open_all
open_all-Opened c o h none_yet =
    Post-bind (if is_single o.chain then load_single else load_many) settle_all o
      {R = λ _ p. Checked c p}
      (if_both (λ (m : Exec Opening Done). Post (m o) (λ _ p. Checked c p) (λ _ _. Unit))
        (is_single o.chain) (λ _. load_single-Checked c o h none_yet)
        (λ _. load_many-Checked c o h))
      λ _ p k. settle-Opened c p p.marked refl k
  where
    settle_all : Done → Exec Opening Done
    settle_all x = settle

-- The deferred Close does not take an error back.
any_result : {A : Type 0} (x : Result A × Chain) → Post x (λ _ _. Unit) (λ _ _. Unit)
any_result (ok a, d) = record { holds = tt }
any_result (err e, d) = record { holds = tt }

close_range-fails :
    (n i : ℕ) (e : Err) (d : Chain) → Post (close_range n i (err e) d) (λ _ _. ⊥) (λ _ _. Unit)
unfolding close_range
close_range-fails zero i e d = record { holds = tt }
close_range-fails (suc n) i e d =
    Post-attempt (on_segment i Write.close) (λ r. close_range n (suc i) (join_results (err e) r)) d
      (any_result (on_segment i Write.close d)) (λ _ u _. close_range-fails n (suc i) e u)
      (λ x u _. close_range-fails n (suc i) (join e x) u)

opened-Opened :
    (c : Chain) (x : Result Done × Opening)
    → Post x (λ _ p. Opened c (closing p)) (λ _ _. Unit)
    → Post (opened x) (λ _ d. Opened c d) (λ _ _. Unit)
opened-Opened c (ok a, o) h = record { holds = h.holds }
opened-Opened c (err e, o) h =
    if_both (λ x. Post x (λ _ d. Opened c d) (λ _ _. Unit)) (o.nils == 0)
      (λ _.
        Post_mono _ (close_range-fails (length o.marked) 0 e _) (λ _ _ x. absurd x) (λ _ _ x. x))
      (λ _. record { holds = tt })

-- Load of a chain, whatever the directory holds and whichever calls fail: if it succeeds, the
-- segments follow on from each other, `disk_size` is the sum
-- of their sizes, there are no more than the limit, and the disk size is within its limit unless the
-- chain is a new one of 64 bytes.
pub load-Opened :
    (location : Bytes) (c : Chain) → Post (load location c) (λ _ d. Opened c d) (λ _ _. Unit)
unfolding load
load-Opened location c =
    opened-Opened c
      (open_all (record {
        chain = record c { directory = location; disk_size = 0 };
        marked = [];
        nils = 0;
      }))
      (open_all-Opened c _ (record { same_disk = refl; same_count = refl; same_segment = refl })
        refl)
