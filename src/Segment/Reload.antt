-- ===== src/Segment/Reload.antt =====
-- Load of a segment file, from its first byte on.
use alog.Common.{
  Bool, ℕ, ◌+◌, ◌≤◌, ◌≡◌, sym, ap, ◌∙◌, arith, List, [], ◌++◌, length, take, true, none, not,
  if◌then◌else◌,
}
use alog.Errors.{invalid_segment_header}
use alog.Exec.{raise, after, ok}
use alog.Bytes.{Bytes}
use alog.Storage.{filled, File, read_full, read_at}
use alog.Storage.Laws.{read_at-middle}
use alog.Frame.Read.Laws.{encode}
use alog.Segment.Header.{valid, meta, read_offset, start_sequence, MetaSlot}
use alog.Segment.State.{Segment, base_sequence}
use alog.Segment.Layout.{frames, offset_at}
use alog.Segment.Represents.{Represents}
use alog.Segment.Load.{load_slot, load_after, close_on_error, load, load_header}
use alog.Segment.Recovery.{IsCutFile, ending, load_frames-recovers}

module _ (f : File) (ps : List Bytes) (q : Bytes) (j : ℕ) (c : IsCutFile f ps q j) where
  -- The file once its header has been read
  opened : File
  opened = record f { position = 64 }

  opened-IsCutFile : IsCutFile opened ps q j
  unfolding opened
  opened-IsCutFile = record {
    readable = record { is_open = c.readable.is_open; no_fault = c.readable.no_fault };
    head = c.head;
    shape = c.shape;
    head_length = c.head_length;
    fits = c.fits;
    last_fits = c.last_fits;
    small = c.small;
    cut = c.cut;
  }

  read_head : f.position ≡ 0 → read_full 64 f ≡ (ok c.head, opened)
  unfolding read_full opened
  read_head at =
      let got : read_at f 64 f.position ≡ (c.head, none) =
        read_at-middle f [] c.head (frames 0 ps ++ take j (encode (length ps) q)) f.position 64
          c.readable c.shape at (sym c.head_length) in
      let end : f.position + length c.head ≡ 64 = omega (arith, c.head_length) in
      ap (filled f) got ∙ ap (λ (n : ℕ). (ok c.head, record f { position = n })) end

  -- Load of a file with a header of 64 bytes, the frames of fewer than 2 ^ 32 payloads, and the first
  -- bytes of one more frame: if the header is valid and its current slot holds the offset of the
  -- frame `k`, it returns a segment that holds these payloads, readable from `k` on, numbered from
  -- the header's start sequence; reported as torn unless the file ends behind a frame or just behind
  -- a frame's header.
  pub load-recovers :
      (b : Bool) (slot : MetaSlot) (k : ℕ)
      → f.position ≡ 0
      → valid c.head ≡ true
      → meta c.head ≡ ok slot
      → k ≤ length ps
      → read_offset slot ≡ ok (offset_at ps k)
      → (s : Segment) × (load b f ≡ ok (ending j s))
        × Represents s ps
        × (s.start_index ≡ k)
        × (base_sequence s ≡ start_sequence c.head)
        × (s.meta ≡ slot)
  unfolding load load_header base_sequence
  load-recovers b slot k at ok_head current below off =
      let (s, loaded, rep, start, head, slots, sync) =
        load_frames-recovers opened ps q j opened-IsCutFile c.head b slot k below off in
      (
        s,
        ap close_on_error (
            ap (λ x. after x.0 (load_after b) x.1) (read_head at)
            ∙ ap
                (λ v.
                  (if not v then raise invalid_segment_header else load_slot b c.head (meta c.head))
                    opened)
                ok_head
            ∙ ap (λ m. load_slot b c.head m opened) current
            ∙ ap (λ r. (r, opened)) loaded),
        rep,
        start,
        ap start_sequence head,
        slots,
      )
