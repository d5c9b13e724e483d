-- ===== src/Pack/Build/Stored/Kept.antt =====
-- One `consume`: what it writes, and what it leaves as it was.
use mathlib.Core.List.{append-nil}
use yomitan_audio_fast.Prelude.{
  ℕ, ◌+◌, ◌^◌, ◌≤◌, ◌<◌, ◌≡◌, ◌≢◌, ◌∙◌, refl, sym, ap, [], ◌++◌, Option, none, some, ◌==◌, ◌&&◌,
  length, length-append, All, All-append_last, arith, Bool-cases, inl, inr,
}
use yomitan_audio_fast.Prelude.Text.{text_eq}
use yomitan_audio_fast.Bytes.{Bytes, slice}
use yomitan_audio_fast.Pack.{record_at}
use yomitan_audio_fast.Pack.Format.Laws.{Fits}
use yomitan_audio_fast.Pack.Build.Consume.{
  ReadResult, BuildState, add_region, find_region, valid_record, begin_group, count_missing, reuse,
  append_content, finish_group, place, consume_content, consume,
}
use yomitan_audio_fast.Pack.Build.Stored.Records.{
  no_record, no_record-Fits, clear_group_records-eq-put_records, length-put_records,
  record_at-put_records_ne, record_at-put_records_self,
}
use yomitan_audio_fast.Pack.Build.Stored.Sound.{
  IsRegion, content_size, HasRecords, HasContent, IsSound, IsResult, Consumed, find_region_lem,
  grow-IsRegion, slice_end,
}

module _ (maximum_id : ℕ) (r : ReadResult) (fine : IsResult maximum_id r) where
  pub begin-IsSound : (s : BuildState) → IsSound maximum_id s → IsSound maximum_id (begin_group r s)
  begin-IsSound s h = record {
    size =
        rw (clear_group_records-eq-put_records r.group.row_ids s.index)
          (length-put_records maximum_id r.group.row_ids no_record s.index fine.below h.size);
    header = h.header;
    regions = h.regions;
  }

  begin-others :
      (s : BuildState) (other : ℕ)
      → IsSound maximum_id s
      → All (λ id. id ≢ other) r.group.row_ids
      → record_at (begin_group r s).index other ≡ record_at s.index other
  begin-others s other h apart = rw (clear_group_records-eq-put_records r.group.row_ids s.index) (
      record_at-put_records_ne maximum_id r.group.row_ids no_record s.index other fine.below h.size
        apart)

  pub begin-HasRecords :
      (s : BuildState)
      → IsSound maximum_id s
      → HasRecords (begin_group r s).index r.group.row_ids no_record
  begin-HasRecords s h = rw (clear_group_records-eq-put_records r.group.row_ids s.index) (
      record_at-put_records_self maximum_id r.group.row_ids no_record s.index fine.below h.size
        no_record-Fits)

  count_missing-Consumed :
      (content digest : Option Bytes) (s : BuildState)
      → IsSound maximum_id s
      → HasContent (count_missing (begin_group r s)) r content digest
      → Consumed maximum_id r content digest s (count_missing (begin_group r s))
  count_missing-Consumed content digest s h holds =
      let b = begin-IsSound s h in
      record {
        sound = record { size = b.size; header = b.header; regions = b.regions };
        added = [];
        pack = sym (append-nil s.pack);
        room = omega arith;
        others = λ other apart. begin-others s other h apart;
        holds = holds;
      }

  -- the records of a readable group, at a region that holds the recording
  finish-Consumed :
      (content digest : Bytes) (offset : ℕ) (s t : BuildState) (added : Bytes)
      → IsSound maximum_id s
      → IsSound maximum_id t
      → t.index ≡ (begin_group r s).index
      → t.pack ≡ s.pack ++ added
      → length added ≤ length content
      → length content < 256 ^ 4
      → offset < 256 ^ 8
      → (slice offset (length content) t.pack ≡ content)
        × (64 ≤ offset)
        × (offset + length content ≤ length t.pack)
      → Consumed maximum_id r
          (some content)
          (some digest)
          s
          (finish_group r content digest offset t)
  finish-Consumed content digest offset s t added h k same pack room small far
        (held, after, inside) =
      let fits : Fits (valid_record offset (length content) r.mime_id) = record {
        offset = far;
        length = small;
        mime_id = omega (arith, fine.mime);
        flags = omega arith;
      } in
      record {
        sound = record {
          size = length-put_records maximum_id r.group.row_ids _ t.index fine.below k.size;
          header = k.header;
          regions = k.regions;
        };
        added = added;
        pack = pack;
        room = room;
        others = λ other apart.
            record_at-put_records_ne maximum_id r.group.row_ids _ t.index other fine.below k.size
              apart
            ∙ ap (λ index. record_at index other) same
            ∙ begin-others s other h apart;
        holds = (
          offset,
          record_at-put_records_self maximum_id r.group.row_ids _ t.index fine.below k.size fits,
          held,
          after,
          inside,
        );
      }

  add_region-IsRegion :
      (content digest : Bytes) (s : BuildState)
      → IsSound maximum_id s
      → (d : Bytes) (n : ℕ)
      → All
          (IsRegion (length (s.pack ++ content)) n)
          (add_region digest (length content) (length s.pack) s.regions d n)
  unfolding add_region
  add_region-IsRegion content digest s h d n =
      let old : All (IsRegion (length (s.pack ++ content)) n) (s.regions d n) =
        rw (length-append s.pack content)
          (grow-IsRegion (length s.pack) (length content) n (s.regions d n) (h.regions d n)) in
      elim (Bool-cases (text_eq digest d && length content == n)) [
        | inl e ↦ rw e (
            All-append_last (IsRegion (length (s.pack ++ content)) n) (s.regions d n)
              (length s.pack, length content) old
              (ground arith, h.header, omega (arith, length-append s.pack content)))
        | inr e ↦ rw e old
      ]

  pub append-IsSound :
      (content digest : Bytes) (s : BuildState)
      → IsSound maximum_id s
      → IsSound maximum_id (append_content content digest s)
  append-IsSound content digest s h = record {
    size = h.size;
    header = omega (arith, length-append s.pack content, h.header);
    regions = add_region-IsRegion content digest s h;
  }

  place-Consumed :
      (content digest : Bytes) (s : BuildState)
      → IsSound maximum_id s
      → length content < 256 ^ 4
      → length s.pack + length content < 256 ^ 8
      → (found : Option ℕ)
      → ((offset : ℕ)
          → found ≡ some offset
          → (slice offset (length content) s.pack ≡ content)
            × (64 ≤ offset)
            × (offset + length content ≤ length s.pack))
      → Consumed maximum_id r
          (some content)
          (some digest)
          s
          (place r content digest found (begin_group r s))
  place-Consumed content digest s h small room (some offset) found =
      let b = begin-IsSound s h in
      let (held, after, inside) = found offset refl in
      finish-Consumed content digest offset s (reuse content (begin_group r s)) [] h
        (record { size = b.size; header = b.header; regions = b.regions }) refl
        (sym (append-nil s.pack)) (omega arith) small (omega arith) (held, after, inside)
  place-Consumed content digest s h small room none found =
      finish-Consumed content digest (length s.pack) s
        (append_content content digest (begin_group r s)) content h
        (append-IsSound content digest (begin_group r s) (begin-IsSound s h)) refl refl
        (omega arith) small (omega arith)
        (slice_end s.pack content, h.header, omega (arith, length-append s.pack content))

  consume_content-Consumed :
      (content digest : Option Bytes) (s : BuildState)
      → IsSound maximum_id s
      → content_size content < 256 ^ 4
      → length s.pack + content_size content < 256 ^ 8
      → Consumed maximum_id r content digest s (consume_content r content digest (begin_group r s))
  consume_content-Consumed none digest s h small room =
      count_missing-Consumed none digest s h (begin-HasRecords s h)
  consume_content-Consumed (some content) none s h small room =
      count_missing-Consumed (some content) none s h (begin-HasRecords s h)
  consume_content-Consumed (some content) (some digest) s h small room =
      place-Consumed content digest s h small room
        (find_region content s.pack (s.regions digest (length content)))
        (λ offset e.
          find_region_lem content s.pack (length s.pack) (s.regions digest (length content))
            (h.regions digest (length content)) e)

  pub consume-Consumed :
      (s : BuildState)
      → IsSound maximum_id s
      → length s.pack + content_size r.content < 256 ^ 8
      → Consumed maximum_id r r.content r.digest s (consume r s)
  unfolding consume
  consume-Consumed s h room = consume_content-Consumed r.content r.digest s h fine.small room
