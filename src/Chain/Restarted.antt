-- ===== src/Chain/Restarted.antt =====
-- SetReadOffset on a segment: it holds what it held, readable from another payload on.
use alog.Common.{
  ℕ, ◌+◌, ◌≤◌, ◌≡◌, refl, sym, ap, ◌∙◌, arith, List, ◌++◌, length, length-append, splice,
}
use alog.Exec.{ok}
use alog.Exec.Post.{Post, Post_mono, Post-bind}
use alog.Bytes.{Bytes}
use alog.Storage
use alog.Storage.{File, write_at, put_bytes}
use alog.Storage.Laws.{put_bytes-inside, length-splice}
use alog.Storage.Changes.{
  SameHandle, SameHandle-trans, IsReadable-SameHandle, write_at-SameHandle, sync-SameHandle,
}
use alog.Index.{OffsetIndex, set, truncate_before}
use alog.Index.Laws.{Holds, Holds-set, Holds-truncate_before}
use alog.Index.Order.{IsOrdered, set-IsOrdered, set_update}
use alog.Index.Cut.{truncate_before-IsOrdered}
use alog.Segment.Header.{start_sequence, MetaSlot, pos, next_slot, slot_offset, write_read_offset}
use alog.Segment.Header.Laws.{length-next_slot}
use alog.Segment.State.{Segment, on_file, base_sequence, anchored, anchor_sparse_index}
use alog.Segment.Locate.{index_for_offset}
use alog.Segment.Write.{set_read_offset, read_index}
use alog.Segment.Layout.{
  Accurate, IsIndexOf, frames, offset_at, offset_at-zero, offset_at-length, set-IsIndexOf,
}
use alog.Segment.Represents.{Layout, held}
use alog.Segment.Append.{on_file-Post}
use alog.Segment.Lookup.{index_for_offset-exact}
use alog.Chain.Contents.{Sealed}

-- The anchor of the first frame is set again.
zero-IsIndexOf :
    (ps : List Bytes) (ix : OffsetIndex)
    → IsOrdered ix
    → Holds (Accurate ps) ix
    → IsIndexOf ps (set 0 64 ix)
zero-IsIndexOf ps ix o h = record {
  ordered = set-IsOrdered 0 64 ix o;
  accurate = Holds-set (Accurate ps) 0 64 ix h (omega arith, sym (offset_at-zero ps));
  anchor = (set_update 0 64 ix o).1 0;
}

-- The next slot is written inside the header.
write_slot :
    (f : File) (x : ℕ) (slot : MetaSlot) (ps : List Bytes)
    → length slot ≡ 16
    → Layout f.bytes ps
    → Post
        (write_read_offset (pos x) slot f)
        (λ n g.
          SameHandle f g
          × Layout g.bytes ps
          × (length g.bytes ≡ length f.bytes)
          × (n ≡ next_slot x slot))
        (λ _ _. Unit)
unfolding write_read_offset
write_slot f x slot ps size l =
    let new : Bytes = next_slot x slot in
    let len : length new ≡ 16 = length-next_slot x slot size in
    let place : slot_offset slot ≤ 32 = unfold slot_offset in ground arith in
    let inside : slot_offset slot + length new ≤ length l.head =
      omega (arith, len, place, l.head_length) in
    let off : ℕ = slot_offset slot in
    let bytes : put_bytes off new f.bytes ≡ splice off new l.head ++ (frames 0 ps ++ l.rest) =
      ap (put_bytes off new) l.shape
      ∙ put_bytes-inside off new l.head (frames 0 ps ++ l.rest) inside in
    let size_head : length (splice off new l.head) ≡ length l.head =
      length-splice off new l.head inside in
    Post-bind (write_at new off) _ f (write_at-SameHandle f new off) λ _ g (handle, written).
      Post-bind Storage.sync _ g (sync-SameHandle g) λ _ u (next, same). record {
        holds = (
          SameHandle-trans f g u handle next,
          record {
            head = splice off new l.head;
            rest = l.rest;
            shape = same ∙ written ∙ bytes;
            head_length = size_head ∙ l.head_length;
          },
          ap length (same ∙ written ∙ bytes)
              ∙ length-append (splice off new l.head) (frames 0 ps ++ l.rest)
              ∙ ap (λ (m : ℕ). m + length (frames 0 ps ++ l.rest)) size_head
              ∙ sym (ap length l.shape ∙ length-append l.head (frames 0 ps ++ l.rest)),
          refl,
        );
      }

-- The segment readable from `k` on
pub record From (s : Segment) (ps : List Bytes) (k : ℕ) (t : Segment) : Type 0 where
  pub sealed : Sealed t ps
  pub base : base_sequence t ≡ base_sequence s
  pub start : t.start_index ≡ k

-- SetReadOffset at the offset of a payload, or at the end, of a segment whose file can be read and ends
-- where the segment does: if it succeeds, the segment holds what it held, in a file of the same length,
-- numbered as before and readable from that payload on. The segment's slot has 16 bytes.
pub set_read_offset-From :
    (s : Segment) (ps : List Bytes) (k : ℕ)
    → Sealed s ps
    → length s.meta ≡ 16
    → k ≤ length ps
    → Post (set_read_offset (offset_at ps k) s) (λ _ t. From s ps k t) (λ _ _. Unit)
unfolding set_read_offset anchor_sparse_index anchored base_sequence
set_read_offset-From s ps k h size below =
    let found : index_for_offset s (offset_at ps k) ≡ ok k =
      index_for_offset-exact s ps (held h.rep) h.readable k below in
    rw (ap read_index found) (
      Post-bind (on_file (write_read_offset (pos (offset_at ps k)) s.meta)) _ s
        (Post_mono _
          (on_file-Post (write_read_offset (pos (offset_at ps k)) s.meta) s
            (write_slot s.file (offset_at ps k) s.meta ps size h.rep.layout))
          (λ _ t x. x) (λ _ _ _. tt))
        λ slot t (d, (handle, layout, bytes, same)).
          let write_index : t.write_index ≡ s.write_index = ap (λ (x : Segment). x.write_index) d in
          let write_offset : t.write_offset ≡ s.write_offset =
            ap (λ (x : Segment). x.write_offset) d in
          let index : t.offset_index ≡ s.offset_index = ap (λ (x : Segment). x.offset_index) d in
          let zero_set : IsIndexOf ps (set 0 64 (truncate_before k t.offset_index)) =
            zero-IsIndexOf ps _
              (rw index (truncate_before-IsOrdered k s.offset_index h.rep.index.ordered))
              (rw index
                (Holds-truncate_before (Accurate ps) k s.offset_index h.rep.index.accurate)) in
          record {
            holds = record {
              sealed = record {
                rep = record {
                  layout = layout;
                  fits = h.rep.fits;
                  small = h.rep.small;
                  count = write_index ∙ h.rep.count;
                  end_offset = write_offset ∙ h.rep.end_offset;
                  start_bound = below;
                  start = refl;
                  index =
                      set-IsIndexOf ps t.write_index t.write_offset _
                        (set-IsIndexOf ps k (offset_at ps k) _ zero_set (below, refl))
                        (
                          omega (arith, write_index, h.rep.count),
                          write_offset
                              ∙ h.rep.end_offset
                              ∙ sym (offset_at-length ps t.write_index (write_index ∙ h.rep.count)),
                        );
                };
                readable = IsReadable-SameHandle s.file t.file handle h.readable;
                whole = bytes ∙ h.whole ∙ sym write_offset;
                room = rw (ap (λ (x : Segment). x.header) d) h.room;
              };
              base = ap (λ (x : Segment). start_sequence x.header) d;
              start = refl;
            };
          })
