-- ===== src/Log/Writer.antt =====
-- pkg/log/write/writer.go: the loop that gathers requests and writes them in batches, as steps. The
-- target of the batches is the interface `appendSyncer`, a parameter; a request is its number and
-- its data, and its response is noted under that number in place of its channel.
pub mod Order
pub mod Kept
pub mod Watch
use alog.Common.{
  ◌==◌, Option, some, none, ◌≡◌, ℕ, ◌+◌, ◌-◌, ◌%◌, ◌^◌, ltb, List, [], ◌∷◌, ◌++◌, Bool, true, false,
  ◌&&◌, if◌then◌else◌, length,
}
use alog.Errors.{Err, stopped}
use alog.Exec.{Done, Result, ok, err, Exec}
use alog.Bytes.{Bytes}
use alog.Segment.Header.{Int64, pos, negsuc}
use alog.Log.Timer

pub record Request : Type 0 where
  pub caller : ℕ
  pub payload : Bytes

pub record Response : Type 0 where
  pub caller : ℕ
  pub result : Result ℕ

pub record Options : Type 0 where
  pub max_length : Int64
  pub max_size : Int64

-- `running` is whether the loop still is.
pub record Writer (L : Type 0) : Type 0 where
  pub log : L
  pub batch : List Request
  pub size : ℕ
  pub timer : Timer.Timer
  pub running : Bool
  pub responses : List Response

abbrev pub payloads_of : List Request → List Bytes
payloads_of [] = []
payloads_of (r ∷ rs) = r.payload ∷ payloads_of rs

abbrev pub fail_all : Err → List Request → List Response
fail_all e [] = []
fail_all e (r ∷ rs) = record { caller = r.caller; result = err e } ∷ fail_all e rs

-- seq++ from one response to the next, in uint64
abbrev pub number_all : ℕ → List Request → List Response
number_all seq [] = []
number_all seq (r ∷ rs) =
    record { caller = r.caller; result = ok seq } ∷ number_all ((seq + 1) % 2 ^ 64) rs

abbrev pub answers : List Request → Result ℕ → List Response
answers batch (err e) = fail_all e batch
answers batch (ok last_seq) =
    number_all ((last_seq + 2 ^ 64 + 1 - length batch % 2 ^ 64) % 2 ^ 64) batch

-- x < limit
abbrev pub under : ℕ → Int64 → Bool
under x (pos n) = ltb x n
under x (negsuc n) = false

-- A request joins the batch; the first one starts the timer.
abbrev pub accept : {L : Type 0} → Request → Writer L → Writer L
accept req w = record w {
  timer = elim w.batch [ [] ↦ Timer.start w.timer | r ∷ rs ↦ w.timer ];
  batch = w.batch ++ req ∷ [];
  size = w.size + length req.payload;
}

-- Append: which case of its select is chosen. The loop takes requests only while it runs.
pub data Choice : Type 0 where
  stop_closed context_done accepted : Choice

module _ {L : Type 0} (append : List Bytes → Exec L ℕ) (opts : Options) where
  unfoldable pub write_batch : Writer L → Writer L
  write_batch w =
      let (r, l) = append (payloads_of w.batch) w.log in
      record w { log = l; responses = w.responses ++ answers w.batch r }

  unfoldable pub flush : Writer L → Writer L
  flush w = elim w.batch [
    | [] ↦ record w { timer = Timer.stop w.timer }
    | r ∷ rs ↦ record (write_batch w) { batch = []; size = 0; timer = Timer.stop w.timer }
  ]

  unfoldable pub receive : Request → Writer L → Writer L
  receive req w =
      let u = accept req w in
      if under u.size opts.max_size && under (length u.batch) opts.max_length then u else flush u

  unfoldable pub stop : Writer L → Writer L
  unfolding flush
  stop w = record (flush w) { running = false }

  -- The channel of the timer is read, and the batch written.
  unfoldable pub expire : Writer L → Writer L
  expire w = flush (record w { timer = Timer.receive w.timer })

  -- Turns of the loop, one for each case of its select, with the callers whose requests it takes; and
  -- the end of the timer's duration, which may come at any time.
  pub data Runs : Writer L → List ℕ → Writer L → Type 0 where
    halt : (w : Writer L) → Runs w [] w
    receives :
        {w v : Writer L} {cs : List ℕ} (req : Request)
        → w.running ≡ true
        → Runs (receive req w) cs v
        → Runs w (req.caller ∷ cs) v
    elapses :
        {w v : Writer L} {cs : List ℕ}
        → w.timer.active ≡ true
        → Runs (record w { timer = Timer.fire w.timer }) cs v
        → Runs w cs v
    expires :
        {w v : Writer L} {cs : List ℕ}
        → w.running ≡ true
        → w.timer.fired ≡ true
        → Runs (expire w) cs v
        → Runs w cs v
    stops : {w v : Writer L} {cs : List ℕ} → w.running ≡ true → Runs (stop w) cs v → Runs w cs v

  -- Append, up to the wait for the response: the error of the context when it is called, and the one
  -- that it has when it is done
  unfoldable pub submit : Option Err → Choice → Err → Request → Writer L → Result Done × Writer L
  submit (some e) choice cause req w = (err e, w)
  submit none Choice.stop_closed cause req w = (err stopped, w)
  submit none Choice.context_done cause req w = (err cause, w)
  submit none Choice.accepted cause req w = (ok tt, receive req w)

-- The response of a caller, which waits for it
abbrev pub response_of : ℕ → List Response → Option (Result ℕ)
response_of caller [] = none
response_of caller (r ∷ rs) = if caller == r.caller then some r.result else response_of caller rs
