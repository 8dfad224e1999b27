-- ===== src/Frame/Pool.antt =====
-- internal/frame/frame.go and the reads of internal/frame/read.go with their buffers. A buffer has
-- the bytes of its whole capacity, of which the payload is the first `len`. sync.Pool may hand out
-- any buffer that it holds, or none, and then a new one is made: which one is the argument `choice`.
pub mod Laws
use alog.Common.{
  ℕ, zero, suc, ◌+◌, ◌==◌, ltb, List, [], ◌∷◌, ◌++◌, Option, none, some, Bool, true, false, length,
  min, take, replicate, splice, get_elem?, if◌then◌else◌,
}
use alog.Exec.{Result, ok, err, Exec}
use alog.Bytes.{Bytes}
use alog.Storage.{File}
use alog.Frame.Header.{Header, header_size, payload_length}
use alog.Frame.Header
use alog.Frame.Read.{read_header, read_full_at}

-- The `Frame` of the source; `pooled` is whether its pool is not nil.
pub record Buffer : Type 0 where
  pub header : Header.Header
  pub contents : Bytes
  pub len : ℕ
  pub pooled : Bool

pub record Pool : Type 0 where
  pub held : List Buffer
  pub default_size : ℕ
  pub max_retained_size : ℕ

abbrev pub payload_of : Buffer → Bytes
payload_of b = take b.len b.contents

unfoldable pub new_pool : ℕ → ℕ → Pool
new_pool default_size max_retained_size = record {
  held = [];
  default_size = default_size;
  max_retained_size = max_retained_size;
}

abbrev pub fresh_buffer : ℕ → Buffer
fresh_buffer n = record {
  header = replicate 16 0;
  contents = replicate n 0;
  len = 0;
  pooled = true;
}

abbrev pub remove_at : ℕ → List Buffer → List Buffer
remove_at i [] = []
remove_at zero (b ∷ bs) = bs
remove_at (suc i) (b ∷ bs) = b ∷ remove_at i bs

abbrev pub taken : Option Buffer → ℕ → Pool → Buffer × Pool
taken none choice p = (fresh_buffer p.default_size, p)
taken (some b) choice p = (b, record p { held = remove_at choice p.held })

unfoldable pub get : ℕ → Pool → Buffer × Pool
get choice p = taken (get_elem? p.held choice) choice p

-- A payload that is kept small enough
abbrev pub trimmed : Pool → Buffer → Buffer
trimmed p b =
    if ltb p.max_retained_size (length b.contents)
    then record b { contents = replicate p.default_size 0; len = 0 }
    else record b { len = 0 }

unfoldable pub put : Buffer → Pool → Pool
put b p = record p { held = trimmed p b ∷ p.held }

-- Return
unfoldable pub give_back : Buffer → Pool → Pool
give_back b p = if b.pooled then put b p else p

-- Value: a copy, and the buffer goes back.
unfoldable pub value : Buffer → Pool → (Header.Header × Bytes) × Pool
unfolding give_back
value b p = ((b.header, payload_of b), give_back b p)

-- Set: append(f.Payload[:0], payload...) keeps the array unless it is too small; a new one may be
-- larger than the payload, by `slack` bytes.
unfoldable pub set : ℕ → Header.Header → Bytes → Buffer → Buffer
set slack header payload b =
    if ltb (length b.contents) (length payload)
    then record b { header = header; contents = payload ++ replicate slack 0; len = length payload }
    else record b { header = header; contents = splice 0 payload b.contents; len = length payload }

-- The payload slice of `n` bytes: the buffer's, or a new one if that is too small.
abbrev pub resized : ℕ → Buffer → Buffer
resized n b =
    if ltb (length b.contents) n
    then record b { contents = replicate n 0; len = n }
    else record b { len = n }

-- readAt fills the slice from its start.
abbrev pub filled_with : Bytes → Buffer → Buffer
filled_with d b = record b { contents = splice 0 d b.contents }

abbrev pub read_into : Result Bytes → Buffer → Pool → Result Buffer × Pool
read_into (err e) b p = (err e, give_back b p)
read_into (ok d) b p = (ok (filled_with d b), p)

abbrev pub borrow_payload :
    File → ℕ → ℕ → Result Header.Header → Buffer → Pool → Result Buffer × Pool
borrow_payload f max offset (err e) b p = (err e, give_back b p)
borrow_payload f max offset (ok h) b p =
    let n = min (payload_length h) max in
    read_into (read_full_at f n (offset + header_size)) (resized n (record b { header = h })) p

-- max == 0: a frame of no pool, with the header alone
abbrev pub header_only : Result Header.Header → Result Buffer
header_only (err e) = err e
header_only (ok h) = ok (record { header = h; contents = []; len = 0; pooled = false })

-- Reader.Read
unfoldable pub borrow : ℕ → File → ℕ → ℕ → ℕ → Exec Pool Buffer
borrow choice f max index offset p =
    if max == 0
    then (header_only (read_header f index offset), p)
    else let (b, q) = get choice p in borrow_payload f max offset (read_header f index offset) b q
