-- ===== src/Log/Writer/Watch.antt =====
-- What holds between two turns of the writer's loop, and how a batch that waits is written.
use alog.Common.{ℕ, ◌≡◌, List, [], true, false}
use alog.Exec.{Exec}
use alog.Bytes.{Bytes}
use alog.Log.Timer
use alog.Log.Timer.{Timer}
use alog.Log.Writer.{Runs, Options, Writer}

module _ {L : Type 0} (append : List Bytes → Exec L ℕ) (opts : Options) where
  -- When the loop has ended, no batch is left.
  abbrev pub Ended : Writer L → Type 0
  Ended w = w.running ≡ false → w.batch ≡ []

  -- The time alone writes the batch, without another request and while the loop goes on.
  pub record Flushed (w : Writer L) : Type 0 where
    pub after : Writer L
    pub run : Runs append opts w [] after
    pub written : after.batch ≡ []
    pub goes_on : after.running ≡ true
