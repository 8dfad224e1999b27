-- ===== src/Segment/Represents.antt =====
-- When a segment holds a list of payloads, and what its first operations keep of that.
use alog.Common.{
  ℕ, ◌+◌, ◌^◌, ◌≤◌, ◌<◌, ◌≡◌, sym, ap, ◌∙◌, arith, List, [], ◌++◌, length, drop, All, append-nil,
  append_assoc, length-append,
}
use alog.Bytes.{Bytes}
use alog.Storage.{put_bytes, resize}
use alog.Storage.Laws.{put_bytes-behind, resize-behind}
use alog.Segment.State.{Segment, append_size}
use alog.Segment.Layout.{Fits, frames, offset_at, IsIndexOf, length-frames, frames-append}

-- The file begins with a header of 64 bytes and the frames of `ps`; more bytes may follow.
pub record Layout (bytes : Bytes) (ps : List Bytes) : Type 0 where
  pub head : Bytes
  pub rest : Bytes
  pub shape : bytes ≡ head ++ (frames 0 ps ++ rest)
  pub head_length : length head ≡ 64

-- The segment holds the payloads `ps`, physically: those before `start_index` are not readable.
pub record Represents (s : Segment) (ps : List Bytes) : Type 0 where
  pub layout : Layout s.file.bytes ps
  pub fits : All Fits ps
  pub small : length ps < 2 ^ 32
  pub count : s.write_index ≡ length ps
  pub end_offset : s.write_offset ≡ 64 + append_size ps
  pub start_bound : s.start_index ≤ length ps
  pub start : s.start_offset ≡ offset_at ps s.start_index
  pub index : IsIndexOf ps s.offset_index

-- What the lookups rely on, also while a segment is being loaded.
pub record Holding (s : Segment) (ps : List Bytes) : Type 0 where
  pub layout : Layout s.file.bytes ps
  pub fits : All Fits ps
  pub small : length ps < 2 ^ 32
  pub index : IsIndexOf ps s.offset_index

pub held : {s : Segment} {ps : List Bytes} → Represents s ps → Holding s ps
held r = record { layout = r.layout; fits = r.fits; small = r.small; index = r.index }

-- The prefix of the file that the frames take up.
abbrev pub Prefix : Bytes → List Bytes → Bytes
Prefix head ps = head ++ frames 0 ps

pub length-Prefix :
    (head : Bytes) (ps : List Bytes)
    → length head ≡ 64
    → length (Prefix head ps) ≡ 64 + append_size ps
length-Prefix head ps h = length-append head (frames 0 ps) ∙ omega (arith, length-frames 0 ps)

module _ {bytes : Bytes} {ps : List Bytes} (l : Layout bytes ps) where
  pub prefixed : bytes ≡ Prefix l.head ps ++ l.rest
  prefixed = l.shape ∙ sym (append_assoc l.head (frames 0 ps) l.rest)

  -- Writing behind the frames keeps them.
  pub Layout-put_bytes :
      (off : ℕ) (new : Bytes) → off ≡ 64 + append_size ps → Layout (put_bytes off new bytes) ps
  Layout-put_bytes off new e = record {
    head = l.head;
    rest = new ++ drop (length new) l.rest;
    shape =
        ap (put_bytes off new) prefixed
        ∙ put_bytes-behind off new (Prefix l.head ps) l.rest
            (e ∙ sym (length-Prefix l.head ps l.head_length))
        ∙ append_assoc l.head (frames 0 ps) (new ++ drop (length new) l.rest);
    head_length = l.head_length;
  }

  -- Writing further frames behind them adds these.
  pub Layout-append :
      (off : ℕ) (qs : List Bytes)
      → off ≡ 64 + append_size ps
      → Layout (put_bytes off (frames (length ps) qs) bytes) (ps ++ qs)
  Layout-append off qs e =
      let new = frames (length ps) qs in
      let more = drop (length new) l.rest in
      record {
        head = l.head;
        rest = more;
        shape =
            ap (put_bytes off new) prefixed
            ∙ put_bytes-behind off new (Prefix l.head ps) l.rest
                (e ∙ sym (length-Prefix l.head ps l.head_length))
            ∙ append_assoc l.head (frames 0 ps) (new ++ more)
            ∙ ap (λ t. l.head ++ t)
                (sym (append_assoc (frames 0 ps) new more)
                  ∙ ap (λ t. t ++ more)
                      (sym (
                        frames-append 0 ps qs
                        ∙ ap (λ (k : ℕ). frames 0 ps ++ frames k qs)
                            (let z : 0 + length ps ≡ length ps = omega arith in z))));
        head_length = l.head_length;
      }

  pub Layout-resize : (off : ℕ) → off ≡ 64 + append_size ps → Layout (resize off bytes) ps
  Layout-resize off e = record {
    head = l.head;
    rest = [];
    shape =
        ap (resize off) prefixed
        ∙ resize-behind off (Prefix l.head ps) l.rest
            (e ∙ sym (length-Prefix l.head ps l.head_length))
        ∙ ap (λ t. l.head ++ t) (sym (append-nil (frames 0 ps)));
    head_length = l.head_length;
  }
