-- ===== src/Log/Timer.antt =====
-- pkg/log/write/timer.go: the timer of the writer. `active` is whether time.Timer runs, `fired`
-- whether its channel holds a time.
use alog.Common.{Bool, true, false}

pub record Timer : Type 0 where
  pub active : Bool
  pub fired : Bool

-- time.Timer.Stop, whose result is whether the timer ran
abbrev pub halted : Timer → Bool × Timer
halted t = (t.active, record t { active = false })

-- Stop: the channel is emptied unless the timer was stopped in time.
abbrev pub drained : Bool × Timer → Timer
drained (true, t) = t
drained (false, t) = record t { fired = false }

unfoldable pub stop : Timer → Timer
stop t = drained (halted t)

unfoldable pub start : Timer → Timer
unfolding stop
start t = record (stop t) { active = true }

unfoldable pub new_lazy_timer : Timer
unfolding stop
new_lazy_timer = stop (record { active = true; fired = false })

-- The duration is over: the time is put in the channel.
unfoldable pub fire : Timer → Timer
fire t = record t { active = false; fired = true }

-- The channel is read.
unfoldable pub receive : Timer → Timer
receive t = record t { fired = false }
