-- ===== src/Segment/Recovery.antt =====
-- Loading a segment file recovers the payloads whose frames are in it whole, and only these.
use alog.Common.{
  length-take, ℕ, suc, ◌+◌, ◌^◌, ◌≤◌, ◌<◌, ◌≡◌, refl, sym, ap, ◌∙◌, arith, List, [], ◌++◌, length,
  take, none, some, Bool, max, ◌==◌, ◌||◌, if◌then◌else◌, All, take_all, length-append,
}
use alog.Errors.{eof, unexpected_eof, is}
use alog.Exec.{ok, err}
use alog.Bytes.{Bytes}
use alog.Storage.{File, IsReadable}
use alog.Frame.Header.{max_uint32}
use alog.Frame.Read.{read}
use alog.Frame.Read.Laws.{encode, torn_error, read-torn}
use alog.Index.{OffsetIndex, set}
use alog.Segment.Header.{read_offset, Header, MetaSlot}
use alog.Segment.State.{Segment, append_size, new_segment, anchor_sparse_index, anchored}
use alog.Segment.Locate.{scan_loop, index_for_offset}
use alog.Segment.Write.{sample}
use alog.Segment.Layout.{
  length-frames, Fits, IsIndexOf, frames, offset_at, offset_at-zero, offset_at-length,
  set-IsIndexOf,
}
use alog.Segment.Represents.{Layout, Holding, Represents, Prefix, length-Prefix, prefixed}
use alog.Segment.Atomic.{sample-IsIndexOf}
use alog.Segment.Stretch.{Stretch, stretch, scan_loop-frames}
use alog.Segment.Lookup.{offset_at-bounds, length-le-append_size, index_for_offset-exact}
use alog.Segment.Cut.{anchored-IsIndexOf}
use alog.Segment.Load.{
  located, started, Loaded, whole, torn, scanned, tracked, starting_at, fresh, load_frames,
}

-- The index of a segment that has just been made.
pub first-IsIndexOf : (ps : List Bytes) → IsIndexOf ps (set 0 64 [])
unfolding set
first-IsIndexOf ps = record {
  ordered = (tt, tt);
  accurate = ((omega arith, sym (offset_at-zero ps)), tt);
  anchor = refl;
}

pub fresh-IsIndexOf :
    (ps : List Bytes) (f : File) (h : Header) (b : Bool)
    → IsIndexOf ps (new_segment f h b).offset_index
unfolding new_segment anchored
fresh-IsIndexOf ps f h b =
    set-IsIndexOf ps 0 64 _
      (set-IsIndexOf ps 0 64 _ (first-IsIndexOf ps) (omega arith, sym (offset_at-zero ps)))
      (omega arith, sym (offset_at-zero ps))

-- The file holds the frames of `ps`, and behind them the first `j` bytes of one more frame.
pub record IsCutFile (f : File) (ps : List Bytes) (q : Bytes) (j : ℕ) : Type 0 where
  pub readable : IsReadable f
  pub head : Bytes
  pub shape : f.bytes ≡ head ++ (frames 0 ps ++ take j (encode (length ps) q))
  pub head_length : length head ≡ 64
  pub fits : All Fits ps
  pub last_fits : Fits q
  pub small : length ps < 2 ^ 32
  pub cut : j < 16 + length q

-- What `Load` makes of the end of the file.
abbrev pub ending : ℕ → Segment → Loaded
ending j s = if j == 0 || j == 16 then whole s else torn s unexpected_eof

scanned-ending :
    (j : ℕ) (t : Segment) (i o : ℕ) (ix : OffsetIndex)
    → scanned t (record {
      idx = i;
      offset = o;
      error = if is (torn_error j) eof then none else some (torn_error j);
      offset_index = ix;
    })
      ≡ ok (ending j (record t { write_index = i; write_offset = o; offset_index = set i o ix }))
unfolding tracked
scanned-ending j t i o ix = ground arith

module _ (f : File) (ps : List Bytes) (q : Bytes) (j : ℕ) (c : IsCutFile f ps q j) where
  layout : Layout f.bytes ps
  layout = record {
    head = c.head;
    rest = take j (encode (length ps) q);
    shape = c.shape;
    head_length = c.head_length;
  }

  read_end : read f max_uint32 (length ps) (64 + append_size ps) ≡ err (torn_error j)
  unfolding layout
  read_end =
      read-torn f c.readable (Prefix c.head ps) q j (length ps) _ (prefixed layout)
        (sym (length-Prefix c.head ps c.head_length)) c.small c.last_fits c.cut

  -- The scan from a readable frame on ends behind the last whole one.
  scan_exact :
      (k o : ℕ) (ix : OffsetIndex)
      → k ≤ length ps
      → o ≡ offset_at ps k
      → IsIndexOf ps ix
      → (jx : OffsetIndex) × IsIndexOf ps jx
        × (scan_loop (suc (length f.bytes)) k o ix f ≡ record {
          idx = length ps;
          offset = 64 + append_size ps;
          error = if is (torn_error j) eof then none else some (torn_error j);
          offset_index = jx;
        })
  scan_exact k o ix h at good =
      let x : Stretch f.bytes ps k (length ps) =
        stretch layout c.fits k (length ps) h (omega arith) in
      let all : ps ≡ take k ps ++ x.middle =
        sym (take_all (length ps) ps (omega arith)) ∙ x.prefix in
      let idx : k + length x.middle ≡ length ps = sym x.count in
      let off : o + append_size x.middle ≡ 64 + append_size ps =
        omega (arith, x.span, offset_at-length ps (length ps) refl) in
      let few : length x.middle < suc (length f.bytes) = omega (
        arith,
        ap length x.shape,
        length-append x.front (frames k x.middle ++ x.back),
        length-append (frames k x.middle) x.back,
        length-frames k x.middle,
        length-le-append_size x.middle,
      ) in
      (
        sample k o x.middle ix,
        sample-IsIndexOf ps (take k ps) x.middle k o ix all c.small
            (omega (arith, length-take k ps)) (at ∙ unfold offset_at in refl) good,
        scan_loop-frames f c.readable x.middle x.front x.back (suc (length f.bytes)) k o ix
              (torn_error j) x.shape (at ∙ sym x.front_length) (omega (arith, x.count, c.small)) few
              x.fits (rw (idx, off) read_end)
            ∙ rw (idx, off),
      )

  -- Take a file that can be read and that has a header of 64 bytes, the frames of fewer than 2 ^ 32
  -- payloads, and the first bytes of one more frame. If the slot's read offset is that of the frame
  -- `k`, the loading of the frames gives a segment that holds the payloads, all of them and no more,
  -- readable from `k` on; it is reported as torn unless the file ends behind a frame or just behind
  -- a frame's header.
  pub load_frames-recovers :
      (h : Header) (b : Bool) (slot : MetaSlot) (k : ℕ)
      → k ≤ length ps
      → read_offset slot ≡ ok (offset_at ps k)
      → (s : Segment) × (load_frames f h b slot ≡ ok (ending j s))
        × Represents s ps
        × (s.start_index ≡ k)
        × (s.header ≡ h)
        × (s.meta ≡ slot)
        × (s.sync_on_append ≡ b)
  unfolding load_frames starting_at anchor_sparse_index new_segment tracked
  load_frames-recovers h b slot k below at =
      let o : ℕ = offset_at ps k in
      let s : Segment = fresh f h b slot in
      let holding : Holding s ps = record {
        layout = layout;
        fits = c.fits;
        small = c.small;
        index = fresh-IsIndexOf ps f h b;
      } in
      let low : max o 64 ≡ o = omega (arith, offset_at-bounds s ps holding c.readable k below) in
      let found : index_for_offset s o ≡ ok k =
        index_for_offset-exact s ps holding c.readable k below in
      let t : Segment = starting_at k o s in
      let (jx, good, scan) = scan_exact k o t.offset_index below refl (
        anchored-IsIndexOf ps k o 0 64 _ (fresh-IsIndexOf ps f h b) (below, refl)
          (omega arith, sym (offset_at-zero ps))) in
      let end : 64 + append_size ps ≡ offset_at ps (length ps) =
        sym (offset_at-length ps (length ps) refl) in
      (
        record t {
          write_index = length ps;
          write_offset = 64 + append_size ps;
          offset_index = set (length ps) (64 + append_size ps) jx;
        },
        ap (started s) at
            ∙ ap (λ x. located s x (index_for_offset s x)) low
            ∙ ap (located s o) found
            ∙ ap (scanned t) scan
            ∙ scanned-ending j t (length ps) (64 + append_size ps) jx,
        record {
          layout = layout;
          fits = c.fits;
          small = c.small;
          count = refl;
          end_offset = refl;
          start_bound = below;
          start = refl;
          index = set-IsIndexOf ps (length ps) _ jx good (omega arith, end);
        },
        refl,
        refl,
        refl,
        refl,
      )
