-- ===== src/Pack/Build/Renewed.antt =====
-- The loop of the build over an index that was left by an interrupted one: the records of the groups that
-- are still to come do not matter.
use yomitan_audio_fast.Prelude.{
  ℕ, ◌+◌, ◌^◌, ◌<◌, ◌≡◌, ◌∙◌, refl, sym, List, [], ◌∷◌, Option, none, some, length, All, All-imp,
  arith, ℕ_discrete,
}
use yomitan_audio_fast.Bytes.{Bytes}
use yomitan_audio_fast.Pack.{record_at}
use yomitan_audio_fast.Pack.Format.{IndexRecord}
use yomitan_audio_fast.Pack.Format.Laws.{Fits}
use yomitan_audio_fast.Pack.Index.{
  index_size, put_record, length-put_record, record_at-put_record_self, record_at-put_record_ne,
}
use yomitan_audio_fast.Pack.Build.Consume.{
  ReadResult, BuildState, put_records, begin_group, finish_group, place, consume_content, consume,
  consume_all, find_region, valid_record, reuse, append_content,
}
use yomitan_audio_fast.Pack.Build.Stored.Records.{
  AreBelow, no_record, no_record-Fits, clear_group_records-eq-put_records, length-put_records,
  record_at-put_records_self,
}
use yomitan_audio_fast.Pack.Build.Stored.Sound.{
  HasRecords, IsSound, IsResult, content_size, find_region_lem,
}
use yomitan_audio_fast.Pack.Build.Stored.Kept.{begin-IsSound, consume-Consumed}
use yomitan_audio_fast.Pack.Build.Stored.Built.{total_size, consume-room}

module _ (maximum_id : ℕ) where
  -- records that are the same before are the same after
  put_records-agree :
      (ids : List ℕ) (r : IndexRecord) (index index' : Bytes) (other : ℕ)
      → AreBelow maximum_id ids
      → length index ≡ index_size maximum_id
      → length index' ≡ index_size maximum_id
      → Fits r
      → record_at index' other ≡ record_at index other
      → record_at (put_records ids r index') other ≡ record_at (put_records ids r index) other
  unfolding put_records
  put_records-agree [] r index index' other below size size' fits e = e
  put_records-agree (id ∷ ids) r index index' other below size size' fits e =
      put_records-agree ids r (put_record id r index) (put_record id r index') other below.1
        (length-put_record maximum_id id r index size below.0)
        (length-put_record maximum_id id r index' size' below.0) fits
        (elim (ℕ_discrete other id) [
          | yes p ↦ rw p (
              record_at-put_record_self maximum_id id r index' size' below.0 fits
              ∙ sym (record_at-put_record_self maximum_id id r index size below.0 fits))
          | no n ↦
              record_at-put_record_ne maximum_id id r index' size' below.0 other n
              ∙ e
              ∙ sym (record_at-put_record_ne maximum_id id r index size below.0 other n)
        ])

  HasRecords-agree :
      (index index' : Bytes) (r : IndexRecord) (ids : List ℕ)
      → HasRecords index ids r
      → HasRecords index' ids r
      → All (λ id. record_at index' id ≡ record_at index id) ids
  HasRecords-agree index index' r [] h h' = tt
  HasRecords-agree index index' r (id ∷ ids) h h' =
      (h'.0 ∙ sym h.0, HasRecords-agree index index' r ids h.1 h'.1)

  -- Two states that differ in the index only, where the second has the records of the first for the rows of
  -- the group, and for each other row for which it had them before.
  pub record Renewed (r : ReadResult) (before before' : Bytes) (s s' : BuildState) : Type 0 where
    pub same : s' ≡ record s { index = s'.index }
    pub size : length s'.index ≡ index_size maximum_id
    pub kept :
        (other : ℕ)
        → record_at before' other ≡ record_at before other
        → record_at s'.index other ≡ record_at s.index other
    pub rows : All (λ id. record_at s'.index id ≡ record_at s.index id) r.group.row_ids

  module _ (r : ReadResult) (fine : IsResult maximum_id r) where
    begin-Renewed :
        (s : BuildState) (index : Bytes)
        → IsSound maximum_id s
        → length index ≡ index_size maximum_id
        → Renewed r s.index index (begin_group r s) (begin_group r (record s { index = index }))
    begin-Renewed s index h size = record {
      same = refl;
      size =
          rw (clear_group_records-eq-put_records r.group.row_ids index)
            (length-put_records maximum_id r.group.row_ids no_record index fine.below size);
      kept = λ other e.
          rw
            (
              clear_group_records-eq-put_records r.group.row_ids index,
              clear_group_records-eq-put_records r.group.row_ids s.index,
            )
            (put_records-agree r.group.row_ids no_record s.index index other fine.below h.size size
              no_record-Fits e);
      rows =
          rw
            (
              clear_group_records-eq-put_records r.group.row_ids index,
              clear_group_records-eq-put_records r.group.row_ids s.index,
            )
            (HasRecords-agree _ _ no_record r.group.row_ids
              (record_at-put_records_self maximum_id r.group.row_ids no_record s.index fine.below
                h.size no_record-Fits)
              (record_at-put_records_self maximum_id r.group.row_ids no_record index fine.below size
                no_record-Fits));
    }

    finish-Renewed :
        (content digest : Bytes) (offset : ℕ) (t : BuildState) (index before before' : Bytes)
        → length t.index ≡ index_size maximum_id
        → length index ≡ index_size maximum_id
        → length content < 256 ^ 4
        → offset < 256 ^ 8
        → ((other : ℕ)
            → record_at before' other ≡ record_at before other
            → record_at index other ≡ record_at t.index other)
        → Renewed r before before'
            (finish_group r content digest offset t)
            (finish_group r content digest offset (record t { index = index }))
    finish-Renewed content digest offset t index before before' size size' small far kept =
        let q = valid_record offset (length content) r.mime_id in
        let fits : Fits q = record {
          offset = far;
          length = small;
          mime_id = omega (arith, fine.mime);
          flags = omega arith;
        } in
        record {
          same = refl;
          size = length-put_records maximum_id r.group.row_ids q index fine.below size';
          kept = λ other e.
              put_records-agree r.group.row_ids q t.index index other fine.below size size' fits
                (kept other e);
          rows =
              HasRecords-agree _ _ q r.group.row_ids
                (record_at-put_records_self maximum_id r.group.row_ids q t.index fine.below size
                  fits)
                (record_at-put_records_self maximum_id r.group.row_ids q index fine.below size'
                  fits);
        }

    place-Renewed :
        (content digest : Bytes) (found : Option ℕ) (s s' : BuildState) (before before' : Bytes)
        → length s.index ≡ index_size maximum_id
        → length content < 256 ^ 4
        → length s.pack < 256 ^ 8
        → ((offset : ℕ) → found ≡ some offset → offset < 256 ^ 8)
        → Renewed r before before' s s'
        → Renewed r before before'
            (place r content digest found s)
            (place r content digest found (record s { index = s'.index }))
    place-Renewed content digest (some offset) s s' before before' size small room far h =
        finish-Renewed content digest offset (reuse content s) s'.index before before' size h.size
          small (far offset refl) h.kept
    place-Renewed content digest none s s' before before' size small room far h =
        finish-Renewed content digest (length s.pack) (append_content content digest s) s'.index
          before before' size h.size small room h.kept

    consume_content-Renewed :
        (content digest : Option Bytes) (s : BuildState) (index : Bytes)
        → IsSound maximum_id s
        → length index ≡ index_size maximum_id
        → content_size content < 256 ^ 4
        → length s.pack + content_size content < 256 ^ 8
        → Renewed r s.index index
            (consume_content r content digest (begin_group r s))
            (consume_content r content digest (begin_group r (record s { index = index })))
    consume_content-Renewed none digest s index h size small room =
        let b = begin-Renewed s index h size in
        record { same = refl; size = b.size; kept = b.kept; rows = b.rows }
    consume_content-Renewed (some content) none s index h size small room =
        let b = begin-Renewed s index h size in
        record { same = refl; size = b.size; kept = b.kept; rows = b.rows }
    consume_content-Renewed (some content) (some digest) s index h size small room =
        place-Renewed content digest
          (find_region content s.pack (s.regions digest (length content))) (begin_group r s)
          (begin_group r (record s { index = index })) s.index index
          (begin-IsSound maximum_id r fine s h).size small (omega arith)
          (λ offset e.
            let (held, after, inside) =
              find_region_lem content s.pack (length s.pack) (s.regions digest (length content))
                (h.regions digest (length content)) e in
            omega (arith, inside, room))
          (begin-Renewed s index h size)

    consume-Renewed :
        (s : BuildState) (index : Bytes)
        → IsSound maximum_id s
        → length index ≡ index_size maximum_id
        → length s.pack + content_size r.content < 256 ^ 8
        → Renewed r s.index index (consume r s) (consume r (record s { index = index }))
    unfolding consume
    consume-Renewed s index h size room =
        consume_content-Renewed r.content r.digest s index h size fine.small room

  -- the same for the loop
  pub record AllRenewed (results : List ReadResult) (before before' : Bytes) (s s' : BuildState)
      : Type 0 where
    pub same : s' ≡ record s { index = s'.index }
    pub kept :
        (other : ℕ)
        → record_at before' other ≡ record_at before other
        → record_at s'.index other ≡ record_at s.index other
    pub rows :
        All (λ r. All (λ id. record_at s'.index id ≡ record_at s.index id) r.group.row_ids) results

  pub consume_all-AllRenewed :
      (results : List ReadResult) (s : BuildState) (index : Bytes)
      → All (IsResult maximum_id) results
      → IsSound maximum_id s
      → length index ≡ index_size maximum_id
      → length s.pack + total_size results < 256 ^ 8
      → AllRenewed results s.index index
          (consume_all results s)
          (consume_all results (record s { index = index }))
  unfolding consume_all
  consume_all-AllRenewed [] s index fine h size room = record {
    same = refl;
    kept = λ other e. e;
    rows = tt;
  }
  consume_all-AllRenewed (r ∷ results) s index fine h size room =
      let one = consume-Renewed r fine.0 s index h size (omega arith) in
      let later =
        consume_all-AllRenewed results (consume r s) (consume r (record s { index = index })).index
          fine.1 (consume-Consumed maximum_id r fine.0 s h (omega arith)).sound one.size
          (consume-room maximum_id r s (total_size results) fine.0 h room) in
      rw one.same (record {
        same = later.same;
        kept = λ other e. later.kept other (one.kept other e);
        rows = (All-imp _ _ r.group.row_ids (λ id e. later.kept id e) one.rows, later.rows);
      })
