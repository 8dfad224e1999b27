-- ===== src/Log/Open.antt =====
-- pkg/log/log.go: New and Load, with NewChain of internal/segment/chain.go.
use alog.Common.{[]}
use alog.Exec.{Result, ok, err, Exec, Done}
use alog.Errors.{wrap}
use alog.Bytes.{Bytes}
use alog.Chain.Files.{FileSystem}
use alog.Chain.State.{Chain}
use alog.Chain.Load
use alog.Log.Options.{Options}
use alog.Log.State.{Log, on_chain, head}

-- NewChain, which has no error
unfoldable pub new_chain : Options → FileSystem → Chain
new_chain opts fs = record {
  fs = fs;
  directory = [];
  segments = [];
  chain_start = opts.storage.start_sequence;
  disk_size = 0;
  max_disk_size = opts.storage.max_disk_size;
  max_segments = opts.storage.max_segments;
  max_segment_size = opts.storage.max_segment_size;
  sync_on_append = opts.storage.sync_on_append;
}

unfoldable pub new : Options → FileSystem → Log
new opts fs = record { chain = new_chain opts fs; next_consume_seq = 0 }

-- log.nextConsumeSeq = log.Head()
abbrev pub set_cursor : Result Done × Log → Result Done × Log
set_cursor (ok x, l) = (ok tt, record l { next_consume_seq = head l })
set_cursor (err e, l) = (err (wrap e), l)

-- Log.Load
unfoldable pub load : Bytes → Exec Log Done
load location l = set_cursor (on_chain (Load.load location) l)

-- The function Load: the log, or the error without it
abbrev pub opened_log : Result Done × Log → Result Log
opened_log (ok x, l) = ok l
opened_log (err e, l) = err (wrap e)

unfoldable pub open_log : Bytes → Options → FileSystem → Result Log
open_log location opts fs = opened_log (load location (new opts fs))
