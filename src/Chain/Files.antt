-- ===== src/Chain/Files.antt =====
-- The directory that a chain works in, as the `FileSystem` interface of internal/storage/file.go
-- shows it, and `Create` of internal/segment/segment.go. The contents of a file are in its handle.
use alog.Common.{
  ◌-◌, length, drop, zero, ℕ, suc, ◌+◌, ◌/◌, ◌%◌, ◌==◌, List, [], ◌∷◌, ◌++◌, Option, none, some,
  Bool, true, false, ◌&&◌, ◌||◌, if◌then◌else◌,
}
use alog.Errors.{Err, not_exist, exist}
use alog.Exec.{modify, Result, ok, err, Exec, Done, raise, lift, attempt, ◌>>=◌, ◌>>◌}
use alog.Bytes.{Bytes}
use alog.Storage.{File, Fault, write, sync}
use alog.Segment.Header
use alog.Segment.Header.{Header, MetaSlot, meta}
use alog.Segment.State.{Segment, new_segment}
use alog.Segment.Load.{close_with}

-- An entry of a directory's listing
pub record DirEntry : Type 0 where
  pub entry_name : Bytes
  pub is_dir : Bool
  pub is_symlink : Bool

-- `outcomes` says of each call, in order, whether it fails, `scripts` of each file that is going to
-- be created how its calls fail. `location` is whether the directory is there and is a directory,
-- `listing` what is in it, and `contents` what opening one of its files gives.
pub record FileSystem : Type 0 where
  pub names : List Bytes
  pub outcomes : List (Option Err)
  pub scripts : List (List (Option Fault))
  pub read_fault : ℕ → Option Err
  pub location : Option Bool
  pub listing : List DirEntry
  pub contents : Bytes → Result File

abbrev pub same_name : Bytes → Bytes → Bool
same_name [] [] = true
same_name [] (y ∷ ys) = false
same_name (x ∷ xs) [] = false
same_name (x ∷ xs) (y ∷ ys) = x == y && same_name xs ys

abbrev pub has_name : Bytes → List Bytes → Bool
has_name x [] = false
has_name x (y ∷ ys) = same_name x y || has_name x ys

abbrev pub without : Bytes → List Bytes → List Bytes
without x [] = []
without x (y ∷ ys) = if same_name x y then without x ys else y ∷ without x ys

-- A call that the operating system may fail.
abbrev pub call_result : List (Option Err) → Result Done
call_result [] = ok tt
call_result (none ∷ os) = ok tt
call_result (some e ∷ os) = err e

abbrev pub later_calls : List (Option Err) → List (Option Err)
later_calls [] = []
later_calls (o ∷ os) = os

abbrev pub next_call : Exec FileSystem Done
next_call fs = (call_result fs.outcomes, record fs { outcomes = later_calls fs.outcomes })

abbrev pub script_of : List (List (Option Fault)) → List (Option Fault)
script_of [] = []
script_of (x ∷ xs) = x

abbrev pub later_scripts : List (List (Option Fault)) → List (List (Option Fault))
later_scripts [] = []
later_scripts (x ∷ xs) = xs

-- os.OpenFile(name, O_CREATE|O_EXCL|O_RDWR, 0o600)
abbrev pub make_file : Bytes → Exec FileSystem File
make_file name fs = if has_name name fs.names then (err exist, fs) else (
  ok (record {
    name = name;
    bytes = [];
    durable = [];
    position = 0;
    is_closed = false;
    read_fault = fs.read_fault;
    outcomes = script_of fs.scripts;
  }),
  record fs { names = name ∷ fs.names; scripts = later_scripts fs.scripts },
)

unfoldable pub create_file : Bytes → Exec FileSystem File
create_file name = next_call >> make_file name

abbrev pub unlink : Bytes → Exec FileSystem Done
unlink name fs =
    if has_name name fs.names
    then (ok tt, record fs { names = without name fs.names })
    else (err not_exist, fs)

unfoldable pub remove : Bytes → Exec FileSystem Done
remove name = next_call >> unlink name

abbrev pub open_name : Bytes → Exec FileSystem File
open_name name fs = (if has_name name fs.names then fs.contents name else err not_exist, fs)

-- os.OpenFile(name, O_RDWR, 0o600)
unfoldable pub open_file : Bytes → Exec FileSystem File
open_file name = next_call >> open_name name

abbrev pub stat_location : Exec FileSystem Bool
stat_location fs = (elim fs.location [ none ↦ err not_exist | some is_dir ↦ ok is_dir ], fs)

-- os.Stat of the directory, of which the result is whether it is one
unfoldable pub stat : Exec FileSystem Bool
stat = next_call >> stat_location

unfoldable pub mkdir_all : Exec FileSystem Done
mkdir_all = next_call >> modify (λ fs. record fs { location = some true })

abbrev pub list_location : Exec FileSystem (List DirEntry)
list_location fs = (elim fs.location [ none ↦ err not_exist | some d ↦ ok fs.listing ], fs)

unfoldable pub read_dir : Exec FileSystem (List DirEntry)
read_dir = next_call >> list_location

unfoldable pub sync_dir : Exec FileSystem Done
sync_dir = next_call

-- fmt.Sprintf("%020d%s", startSeq, ".bin"): the last `n` decimal digits, in ASCII.
abbrev pub digits : ℕ → ℕ → Bytes
digits zero n = []
digits (suc w) n = digits w (n / 10) ++ (48 + n % 10) ∷ []

unfoldable pub segment_file_name : ℕ → Bytes
segment_file_name start_seq = digits 20 start_seq ++ 46 ∷ 98 ∷ 105 ∷ 110 ∷ []

-- filepath.Ext(name) == ".bin"
abbrev pub has_extension : Bytes → Bool
has_extension name = same_name (drop (length name - 4) name) (46 ∷ 98 ∷ 105 ∷ 110 ∷ [])

-- filepath.Join(directory, name), for a directory that is a clean path
unfoldable pub join_path : Bytes → Bytes → Bytes
join_path directory name = directory ++ 47 ∷ name

-- The file of a new segment: its header is written and synced.
abbrev pub write_first : Header.Header → Exec File Done
write_first header = write header >> sync

-- From the reading of the header's slot on, and from the directory's sync on
abbrev pub with_slot : Header.Header → Bool → File → Result MetaSlot → Result Segment
with_slot header b f (err e) = err (close_with e f)
with_slot header b f (ok slot) = ok (record (new_segment f header b) { meta = slot })

abbrev pub finish_create : Header.Header → Bool → File → Result Done → Result Segment
finish_create header b f (err e) = err (close_with e f)
finish_create header b f (ok x) = with_slot header b f (meta header)

abbrev pub sync_created : Header.Header → Bool → Result Done × File → Exec FileSystem Segment
sync_created header b (err e, f) = raise (close_with e f)
sync_created header b (ok x, f) = attempt sync_dir >>= λ r. lift (finish_create header b f r)

unfoldable pub create : Bytes → ℕ → Bool → Exec FileSystem Segment
create path start_seq sync_on_append = do
  let header = Header.new_header start_seq
  file ← create_file path
  sync_created header sync_on_append (write_first header file)
