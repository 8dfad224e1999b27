-- ===== src/Chain/Short.antt =====
-- A segment file that is too short to have a header, as a crash between the creation of the file and
-- the write of its header can leave it.
use alog.Common.{
  ◌∷◌, none, Option, ◌==◌, ◌+◌, arith, lt→ltb, ◌<◌, ◌≡◌, refl, ap, ◌∙◌, List, [], length, Bool,
  true, false, some, ◌&&◌, not, if◌then◌else◌,
}
use alog.Errors.{unexpected_eof, eof, panic, join, is}
use alog.Exec.{Done, Result, ok, err, after}
use alog.Storage
use alog.Storage.{File, IsReadable, read_full, read_at, filled}
use alog.Storage.Laws.{read_at-short}
use alog.Segment.Load.{load, load_header, load_after, close_on_error, close_with}
use alog.Exec.{Exec, modify, ◌>>◌}
use alog.Exec.Post.{Post, Post-bind}
use alog.Errors.{Err, too_many_segments, not_contiguous}
use alog.Bytes.{Bytes}
use alog.Segment.Load.{Loaded}
use alog.Chain.State.{Chain, exceeds}
use alog.Chain.Files.{DirEntry, FileSystem, has_name, join_path, stat, read_dir, open_file}
use alog.Chain.Load as ChainLoad
use alog.Chain.Load.{order_loaded, opened, is_single, open_all, load_many, check}
use alog.Chain.Directory.{
  Opening, taken_in, load_file, load_files, load_segment, segment_files, sorted, contiguous,
  prepare, Marked, take_in, is_marked,
}

-- The error, joined with that of Close, if there is one
close_with-is : (f : File) → is (close_with unexpected_eof f) unexpected_eof ≡ true
close_with-is f = go (Storage.close f).0
  where
    go :
        (r : Result Done)
        → is (elim r [ ok x ↦ unexpected_eof | err c ↦ join unexpected_eof c ]) unexpected_eof
          ≡ true
    go (ok x) = refl
    go (err c) = refl

module _ (b : Bool) (f : File) (r : IsReadable f) (at : f.position ≡ 0)
    (some_bytes : 0 < length f.bytes) (short : length f.bytes < 64) where
  read_short : (read_full 64 f).0 ≡ err unexpected_eof
  unfolding read_full
  read_short =
      let got : read_at f 64 f.position ≡ (f.bytes, some eof) =
        read_at-short f [] f.bytes f.position 64 r refl at short in
      ap (λ x. (filled f x).0) got
      ∙ ap (λ x. err (if x then unexpected_eof else eof)) (lt→ltb 0 (length f.bytes) some_bytes)

  load_short : load b f ≡ err (close_with unexpected_eof (read_full 64 f).1)
  unfolding load load_header
  load_short = ap (λ r. close_on_error (after r (load_after b) (read_full 64 f).1)) read_short

  -- Such a file lets nil join the segments, where no torn segment was met before.
  take_in-short : (ms : List Marked) → is_marked ms ≡ false → take_in ms (load b f) ≡ ok none
  take_in-short ms clear =
      let g : File = (read_full 64 f).1 in
      ap (take_in ms) load_short
      ∙ ap
          (λ x.
            if not x && is (close_with unexpected_eof g) unexpected_eof
            then ok none
            else err (close_with unexpected_eof g))
          clear
      ∙ ap (λ x. if x then ok none else err (close_with unexpected_eof g)) (close_with-is g)

-- There is a nil among the segments, and stays there.
abbrev HasNil : Opening → Type 0
HasNil o = 0 < o.nils

abbrev KeepsNil : {A : Type 0} → Exec Opening A → Type 0
KeepsNil m = (o : Opening) → HasNil o → Post (m o) (λ _ p. HasNil p) (λ _ p. HasNil p)

taken_in-KeepsNil : (r : Result (Option (List Marked))) → KeepsNil (taken_in r)
taken_in-KeepsNil (ok (some ms)) o h = record { holds = h }
taken_in-KeepsNil (ok none) o h = record { holds = omega arith }
taken_in-KeepsNil (err e) o h = record { holds = h }

load_files-KeepsNil : (names : List Bytes) → KeepsNil (load_files take_in names)
unfolding load_files
load_files-KeepsNil [] o h = record { holds = h }
load_files-KeepsNil (name ∷ names) o h =
    Post-bind (load_file take_in name) _ o {R = λ _ p. HasNil p}
      (go (load_segment o.chain.sync_on_append (join_path o.chain.directory name) o.chain.fs))
      (λ _ p k. load_files-KeepsNil names p k)
  where
    go :
        (x : Result Loaded × FileSystem)
        → (let p = record o { chain = record o.chain { fs = x.1 } } in
            Post (taken_in (take_in p.marked x.0) p) (λ _ q. HasNil q) (λ _ q. HasNil q))
    go (r, fs) = taken_in-KeepsNil (take_in o.marked r) _ h

-- With a nil the loading does not go well,
order_loaded-fails : (o : Opening) → HasNil o → Post (order_loaded o) (λ _ _. ⊥) (λ _ p. HasNil p)
unfolding order_loaded
order_loaded-fails o h = go (not (exceeds (length o.marked + o.nils) o.chain.max_segments))
  where
    rest : Exec Opening Done
    rest = modify (λ o. record o { marked = sorted o.marked }) >> λ p.
        check (contiguous p.marked) not_contiguous p

    second : (b : Bool) → b ≡ false → Post ((check b panic >> rest) o) (λ _ _. ⊥) (λ _ p. HasNil p)
    second false e = record { holds = h }
    second true e = absurd (let z = e in cc)

    go :
        (b : Bool)
        → Post
            ((check b too_many_segments >> λ p. (check (p.nils == 0) panic >> rest) p) o)
            (λ _ _. ⊥)
            (λ _ p. HasNil p)
    go false = record { holds = h }
    go true = second (o.nils == 0) (ground arith)

-- and ends in a panic.
opened-panics :
    (x : Result Done × Opening) → Post x (λ _ _. ⊥) (λ _ p. HasNil p) → (opened x).0 ≡ err panic
opened-panics (ok a, o) h = absurd h.holds
opened-panics (err e, o) h =
    let some_nil : (o.nils == 0) ≡ false = let k = h.holds in ground arith in rw some_nil refl

-- A chain of which the directory is there, and the first three calls of the file system succeed.
abbrev pub reachable : List (Option Err) → Chain → Chain
reachable os c = record c {
  fs = record c.fs { outcomes = none ∷ none ∷ none ∷ os; location = some true };
}

-- The chain while it is loaded, when `os` are the outcomes of the calls to come
opening : Bytes → List (Option Err) → Chain → Opening
opening location os c = record {
  chain = record c {
    directory = location;
    disk_size = 0;
    fs = record c.fs { outcomes = os; location = some true };
  };
  marked = [];
  nils = 0;
}

module _ (location name : Bytes) (names : List Bytes) (os : List (Option Err)) (c : Chain)
    (f : File) (listed : segment_files c.fs.listing ≡ name ∷ names)
    (there : has_name (join_path location name) c.fs.names ≡ true)
    (content : c.fs.contents (join_path location name) ≡ ok f) (r : IsReadable f)
    (at : f.position ≡ 0) (some_bytes : 0 < length f.bytes) (short : length f.bytes < 64) where
  short_file-HasNil :
      Post
        (load_file take_in name (opening location (none ∷ os) c))
        (λ _ p. HasNil p)
        (λ _ p. HasNil p)
  unfolding opening load_segment open_file
  short_file-HasNil =
      rw (there, content, take_in-short c.sync_on_append f r at some_bytes short [] refl)
        (record { holds = omega arith })

  listed_rest : List DirEntry → Exec Opening Done
  listed_rest es = load_files take_in (segment_files es) >> order_loaded

  listed_rest-fails :
      Post (listed_rest c.fs.listing (opening location (none ∷ os) c)) (λ _ _. ⊥) (λ _ p. HasNil p)
  unfolding listed_rest load_files
  listed_rest-fails = rw listed (
      Post-bind (load_files take_in (name ∷ names)) (λ _. order_loaded)
        (opening location (none ∷ os) c) {R = λ _ u. HasNil u}
        (Post-bind (load_file take_in name) (λ _. load_files take_in names)
          (opening location (none ∷ os) c) {R = λ _ u. HasNil u} short_file-HasNil
          (λ _ u h. load_files-KeepsNil names u h))
        (λ _ u h. order_loaded-fails u h))

  load_many-fails :
      Post (load_many (opening location (none ∷ none ∷ none ∷ os) c)) (λ _ _. ⊥) (λ _ p. HasNil p)
  unfolding opening load_many prepare stat read_dir listed_rest
  load_many-fails = listed_rest-fails

-- Load of a chain that is not limited to one segment panics, if the first segment file of the directory
-- has fewer than 64 bytes, but at least one: whatever else the directory holds, and whichever of the
-- calls after the opening of this file fail.
pub load-panics :
    (location name : Bytes) (names : List Bytes) (os : List (Option Err)) (c : Chain) (f : File)
    → is_single c ≡ false
    → segment_files c.fs.listing ≡ name ∷ names
    → has_name (join_path location name) c.fs.names ≡ true
    → c.fs.contents (join_path location name) ≡ ok f
    → IsReadable f
    → f.position ≡ 0
    → 0 < length f.bytes
    → length f.bytes < 64
    → (ChainLoad.load location (reachable os c)).0 ≡ err panic
unfolding ChainLoad.load open_all opening
load-panics location name names os c f many listed there content r at some_bytes short =
    opened-panics (open_all (opening location (none ∷ none ∷ none ∷ os) c)) (
      rw many (
        Post-bind load_many _ (opening location (none ∷ none ∷ none ∷ os) c) {R = λ _ _. ⊥}
          (load_many-fails location name names os c f listed there content r at some_bytes short)
          (λ _ _ x. absurd x)))
