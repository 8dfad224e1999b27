-- ===== src/Tests/Opening.antt =====
-- Small inputs for the opening of a log, the reads through the pool and the runs of the writer.
use alog.Common.{◌≡◌, refl, sym, ap, ◌∙◌, arith, ℕ, [], ◌∷◌, true, false}
use alog.Errors.{panic}
use alog.Exec.{ok, err}
use alog.Exec.Post.{Post}
use alog.Storage.{File}
use alog.Frame.Read.{read}
use alog.Frame.Read.Laws.{encode}
use alog.Frame.Pool.{Buffer, Pool, borrow, give_back}
use alog.Frame.Pool.Laws.{frame_in, IsBounded, borrow-read, borrow-IsBounded}
use alog.Segment.Header
use alog.Segment.Header.{valid, meta, start_sequence}
use alog.Segment.Header.Laws.{first_slot, first_slot_fields}
use alog.Segment.Header.Slots.{meta-IsCurrent}
use alog.Segment.State.{Segment, base_sequence}
use alog.Segment.Layout.{offset_at-zero}
use alog.Segment.Represents.{Represents}
use alog.Segment.Recovery.{ending}
use alog.Segment.Load
use alog.Segment.Reload.{load-recovers}
use alog.Chain.Files.{join_path}
use alog.Chain.State.{Chain}
use alog.Chain.Load as ChainLoad
use alog.Chain.Settled.{Opened}
use alog.Chain.Opened.{load-Opened}
use alog.Chain.Short.{reachable, load-panics}
use alog.Log.Timer
use alog.Log.Writer.{Writer, receive, expire}
use alog.Tests.{
  payload, payloads, first_header, file_of, file_of-IsReadable, cut_file, cut_file-IsCutFile,
  first_slot-IsSlot, first_slot-IsCurrent, chain, count, options, idle, request,
}

load-recovers_example :
    (s : Segment) × (Load.load true cut_file ≡ ok (ending 4 s))
    × Represents s payloads
    × (s.start_index ≡ 0)
    × (base_sequence s ≡ start_sequence first_header)
    × (s.meta ≡ first_slot 5)
load-recovers_example =
    load-recovers cut_file payloads payload 4 cut_file-IsCutFile true (first_slot 5) 0 refl
      (unfold valid Header.magic Header.version Header.new_header in refl)
      (meta-IsCurrent (first_slot 5) first_header first_slot-IsSlot.0 (first_slot_fields 5).2
        first_slot-IsCurrent)
      (omega arith) ((first_slot_fields 5).0 ∙ ap ok (sym (offset_at-zero payloads)))

-- A directory with one segment file, of which the last frame is torn
abbrev crashed : Chain
crashed = record chain {
  segments = [];
  fs = record chain.fs {
    names = (100 ∷ 47 ∷ 46 ∷ 98 ∷ 105 ∷ 110 ∷ []) ∷ [];
    listing =
        record { entry_name = 46 ∷ 98 ∷ 105 ∷ 110 ∷ []; is_dir = false; is_symlink = false } ∷ [];
    contents = λ _. ok cut_file;
  };
}

load-Opened_example :
    Post (ChainLoad.load (100 ∷ []) crashed) (λ _ d. Opened crashed d) (λ _ _. Unit)
load-Opened_example = load-Opened (100 ∷ []) crashed

abbrev short_file : File
short_file = file_of (65 ∷ 76 ∷ 79 ∷ [])

-- A directory with that file
abbrev cut_short : Chain
cut_short = record crashed { fs = record crashed.fs { contents = λ _. ok short_file } }

load-panics_example : (ChainLoad.load (100 ∷ []) (reachable [] cut_short)).0 ≡ err panic
load-panics_example =
    load-panics (100 ∷ []) (46 ∷ 98 ∷ 105 ∷ 110 ∷ []) [] [] cut_short short_file refl refl
      (unfold join_path in refl) refl (file_of-IsReadable _) refl (omega arith) (omega arith)

-- A pool with one buffer, in which the bytes of another payload are left
abbrev stale : Pool
stale = record {
  held = record { header = []; contents = 9 ∷ 9 ∷ 9 ∷ 9 ∷ []; len = 0; pooled = true } ∷ [];
  default_size = 2;
  max_retained_size = 4;
}

borrow-read_example :
    frame_in (borrow 0 (file_of (encode 0 payload)) 2 0 0 stale).0
    ≡ read (file_of (encode 0 payload)) 2 0 0
borrow-read_example = borrow-read 0 (file_of (encode 0 payload)) 2 0 0 stale

stale-IsBounded : IsBounded stale
stale-IsBounded = ((refl, omega arith), tt)

borrow-IsBounded_example :
    IsBounded (borrow 0 (file_of (encode 0 payload)) 2 0 0 stale).1
    × ((b : Buffer) → IsBounded (give_back b (borrow 0 (file_of (encode 0 payload)) 2 0 0 stale).1))
borrow-IsBounded_example =
    borrow-IsBounded 0 (file_of (encode 0 payload)) 2 0 0 stale stale-IsBounded

-- A request, and then the time out of its batch
abbrev waiting : Writer ℕ
waiting = receive count options (request 9) idle

abbrev timed_out : Writer ℕ
timed_out = record waiting { timer = Timer.fire waiting.timer }

abbrev flushed : Writer ℕ
flushed = expire count options timed_out
