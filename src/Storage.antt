-- ===== src/Storage.antt =====
-- internal/storage/file.go: an open file as the `File` interface shows it. A method of `OSFile` is
-- the method of Go's os.File, so a file here is its bytes, the position of the next `Write`, what
-- is on stable storage, and the failures that the operating system is going to report.
pub mod Laws
pub mod Changes
use alog.Common.{
  ◌≡◌, ℕ, suc, ◌+◌, ◌-◌, ◌==◌, ltb, List, [], ◌∷◌, ◌++◌, Option, none, some, Bool, true, false,
  length, ◌&&◌, take, slice, splice, replicate, if◌then◌else◌,
}
use alog.Errors.{Err, eof, unexpected_eof, closed, is}
use alog.Exec.{Result, ok, err, Exec, Done}
use alog.Bytes.{Bytes}

-- A failed write has written `written` of its bytes.
pub record Fault : Type 0 where
  pub written : ℕ
  pub error : Err

-- `read_fault` is the error of a read at an offset. `outcomes` says of each call that changes the
-- file, in order, whether it fails; past its end every call succeeds.
pub record File : Type 0 where
  pub name : Bytes
  pub bytes : Bytes
  pub durable : Bytes
  pub position : ℕ
  pub is_closed : Bool
  pub read_fault : ℕ → Option Err
  pub outcomes : List (Option Fault)

-- f.f.ReadAt(b, off) with len(b) = n: the bytes read and the error.
unfoldable pub read_at : File → ℕ → ℕ → Bytes × Option Err
read_at f n off =
    if f.is_closed
    then ([], some closed)
    else if n == 0
    then ([], none)
    else elim (f.read_fault off) [
      | some e ↦ ([], some e)
      | none ↦ let d = slice off n f.bytes in if ltb (length d) n then (d, some eof) else (d, none)
    ]

-- A file shorter than `off` is filled up with zeros before the bytes are put there.
abbrev pub put_bytes : ℕ → Bytes → Bytes → Bytes
put_bytes off new bs = splice off new (bs ++ replicate (off - length bs) 0)

abbrev pub resize : ℕ → Bytes → Bytes
resize n bs = take n (bs ++ replicate (n - length bs) 0)

-- The next outcome, for a file that is open.
abbrev pub next_outcome : List (Option Fault) → Option Fault
next_outcome [] = none
next_outcome (o ∷ os) = o

abbrev pub later_outcomes : List (Option Fault) → List (Option Fault)
later_outcomes [] = []
later_outcomes (o ∷ os) = os

-- A call that changes the file: `complete` is what it does, `partial` what it does on a fault.
unfoldable pub change : (File → File) → (ℕ → File → File) → Exec File Done
change complete partial f =
    if f.is_closed
    then (err closed, f)
    else let g = record f { outcomes = later_outcomes f.outcomes } in
      elim (next_outcome f.outcomes) [
        | none ↦ (ok tt, complete g)
        | some fault ↦ (err fault.error, partial fault.written g)
      ]

-- f.f.WriteAt(b, off)
unfoldable pub write_at : Bytes → ℕ → Exec File Done
write_at b off =
    change (λ f. record f { bytes = put_bytes off b f.bytes })
      (λ n f. record f { bytes = put_bytes off (take n b) f.bytes })

abbrev pub concat : List Bytes → Bytes
concat [] = []
concat (b ∷ bs) = b ++ concat bs

-- net.Buffers(parts).WriteTo(f.f), at the position
unfoldable pub write_to : List Bytes → Exec File Done
write_to parts =
    let b = concat parts in
    change
      (λ f. record f { bytes = put_bytes f.position b f.bytes; position = f.position + length b })
      (λ n f. record f {
        bytes = put_bytes f.position (take n b) f.bytes;
        position = f.position + length (take n b);
      })

-- f.f.Write(b)
unfoldable pub write : Bytes → Exec File Done
unfolding write_to
write b = write_to (b ∷ [])

-- f.f.Seek(off, io.SeekStart)
unfoldable pub seek : ℕ → Exec File Done
seek off = change (λ f. record f { position = off }) (λ _ f. f)

unfoldable pub truncate : ℕ → Exec File Done
truncate n = change (λ f. record f { bytes = resize n f.bytes }) (λ _ f. f)

unfoldable pub sync : Exec File Done
sync = change (λ f. record f { durable = f.bytes }) (λ _ f. f)

-- What was read, and the position behind it
abbrev pub filled : File → Bytes × Option Err → Result Bytes × File
filled f (d, none) = (ok d, record f { position = f.position + length d })
filled f (d, some x) = (
  err (if is x eof && ltb 0 (length d) then unexpected_eof else x),
  record f { position = f.position + length d },
)

-- io.ReadFull(f.f, b) with len(b) = n > 0, from the position on
unfoldable pub read_full : ℕ → Exec File Bytes
unfolding read_at
read_full n f = filled f (read_at f n f.position)

-- A second Close reports os.ErrClosed; a failed one has closed the file too.
unfoldable pub close : Exec File Done
close = change (λ f. record f { is_closed = true }) (λ _ f. record f { is_closed = true })

-- A file that can be read wherever it has bytes.
pub record IsReadable (f : File) : Type 0 where
  pub is_open : f.is_closed ≡ false
  pub no_fault : (off : ℕ) → f.read_fault off ≡ none
