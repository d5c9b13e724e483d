-- ===== src/Pack/Build/Restore/Reach.antt =====
-- A turn of the loop for each way in which `consume` ends.
use yomitan_audio_fast.Prelude.{
  ℕ, ◌+◌, ◌*◌, ◌^◌, ◌≤◌, ◌<◌, ◌≡◌, ◌∙◌, refl, sym, ap, ◌++◌, Option, none, some, true, length,
  length-append, All, arith, is_some,
}
use yomitan_audio_fast.Bytes.{Bytes, slice}
use yomitan_audio_fast.Bytes.Laws.{slice-append}
use yomitan_audio_fast.Pack.{record_at}
use yomitan_audio_fast.Pack.Format.{IndexRecord, mime_by_id}
use yomitan_audio_fast.Pack.Groups.{AudioGroup}
use yomitan_audio_fast.Pack.Build.Consume.{
  ReadResult, BuildState, find_region, valid_record, begin_group, count_missing, finish_group,
  reuse, append_content, place, consume_content, consume,
}
use yomitan_audio_fast.Pack.Build.Stored.Records.{no_record}
use yomitan_audio_fast.Pack.Build.Stored.Sound.{HasRecords}
use yomitan_audio_fast.Pack.Build.Restore.State.{
  Restoring, restored, begin_restore, length_or, restore_missing, restore_region, restore_seen,
  remember_length,
}
use yomitan_audio_fast.Pack.Build.Restore.{restore_rows, restore_group}
use yomitan_audio_fast.Pack.Build.Restore.Maps.{find_region-All}
use yomitan_audio_fast.Pack.Format.Laws.{Fits}
use yomitan_audio_fast.Pack.Build.Stored.Records.{record_at-put_records_self}
use yomitan_audio_fast.Pack.Build.Stored.Sound.{
  IsSound, IsResult, content_size, find_region_lem, slice_end,
}
use yomitan_audio_fast.Pack.Build.Stored.Kept.{begin-IsSound, begin-HasRecords}
use yomitan_audio_fast.Pack.Build.Stored.Built.{keep_records}
use yomitan_audio_fast.Pack.Index.{index_size}
use yomitan_audio_fast.Pack.Build.Consume.{put_records}
use yomitan_audio_fast.Pack.Build.Restore.Turn.{
  begin-Matches, missing-Matches, finish-Matches, reuse-Matches, append-Matches, IsHashed,
}
use yomitan_audio_fast.Pack.Build.Restore.Matches.{
  IsSeen, HasDigests, Matches, restore_rows-HasRecords, restore_record-missing, read_digest_lem,
  restore_valid_lem,
}

module _ (blake2b : Bytes → Bytes) (source_state : AudioGroup → Bytes) (index pack : Bytes)
    (r : ReadResult) (some_row : 0 < length r.group.row_ids) where
  region-restored :
      (content : Bytes) (offset : ℕ) (acc : Restoring)
      → is_some (mime_by_id r.mime_id) ≡ true
      → 0 < length content
      → length content ≤ 64 * 1024 * 1024
      → (slice offset (length content) pack ≡ content)
        × (64 ≤ offset)
        × (offset + length content ≤ length pack)
      → HasRecords index r.group.row_ids (valid_record offset (length content) r.mime_id)
      → length_or (acc.length_by_offset offset) (length content) ≡ length content
      → HasDigests blake2b pack acc.digest_by_record
      → (digests : ℕ → ℕ → Option Bytes) × (restore_rows blake2b source_state index pack
            (length pack)
            r.group
            r.group.row_ids
            acc
          ≡ restored (
              restore_region r.group
                (blake2b content)
                offset
                (length content)
                (record (remember_length offset (length content) acc) {
                  digest_by_record = digests;
                })))
        × HasDigests blake2b pack digests
  region-restored content offset acc mime full small (held, after, inside) records same h =
      let (digests, read, sound) =
        read_digest_lem blake2b source_state index pack r.group content offset
          (remember_length offset (length content) acc)
          (acc.digest_by_record offset (length content)) (λ d e. h offset (length content) d e) held
          h in
      (
        digests,
        restore_rows-HasRecords blake2b source_state index pack r.group r.group.row_ids _ acc
              some_row records
            ∙ restore_valid_lem blake2b source_state index pack r.group content offset r.mime_id acc
                mime full small after inside same
            ∙ read,
        sound,
      )

  -- the rows of a group at an index that has the same records for them as the build's
  put_records-HasRecords :
      (maximum_id : ℕ) (q : IndexRecord) (before after : Bytes)
      → IsResult maximum_id r
      → length before ≡ index_size maximum_id
      → Fits q
      → after ≡ put_records r.group.row_ids q before
      → All (λ id. record_at index id ≡ record_at after id) r.group.row_ids
      → HasRecords index r.group.row_ids q
  put_records-HasRecords maximum_id q before after fine size fits e same =
      keep_records after index r.group.row_ids q same
        (rw e (record_at-put_records_self maximum_id r.group.row_ids q before fine.below size fits))

  -- The restart reaches `t`.
  abbrev pub Reaches : Restoring → BuildState → Type 0
  Reaches acc t =
      (next : Restoring) × (restore_rows blake2b source_state index pack (length pack) r.group
          r.group.row_ids acc
        ≡ restored next)
      × Matches blake2b pack t next

  missing-Reaches :
      (s : BuildState) (acc : Restoring)
      → Matches blake2b pack s acc
      → HasRecords s.index r.group.row_ids no_record
      → All (λ id. record_at index id ≡ record_at s.index id) r.group.row_ids
      → Reaches acc (count_missing s)
  missing-Reaches s acc m empty same = (
    restore_missing acc,
    restore_rows-HasRecords blake2b source_state index pack r.group r.group.row_ids no_record acc
          some_row (keep_records s.index index r.group.row_ids no_record same empty)
        ∙ restore_record-missing blake2b source_state index pack r.group acc,
    missing-Matches blake2b pack s acc m,
  )

  module _ (maximum_id : ℕ) (fine : IsResult maximum_id r) where
    finish-Reaches :
        (content digest : Bytes) (offset : ℕ) (t : BuildState) (acc : Restoring) (more : Bytes)
        → length t.index ≡ index_size maximum_id
        → IsHashed blake2b r.mime_id (some content) (some digest)
        → (slice offset (length content) t.pack ≡ content)
          × (64 ≤ offset)
          × (offset + length content ≤ length t.pack)
        → offset < 256 ^ 8
        → length_or (acc.length_by_offset offset) (length content) ≡ length content
        → HasDigests blake2b pack acc.digest_by_record
        → ((digests : ℕ → ℕ → Option Bytes)
            → HasDigests blake2b pack digests
            → Matches blake2b pack t (
                restore_seen
                  (acc.seen_offsets offset)
                  digest
                  offset
                  (length content)
                  (record (remember_length offset (length content) acc) {
                    digest_by_record = digests;
                  })))
        → All
            (λ id. record_at index id ≡ record_at (finish_group r content digest offset t).index id)
            r.group.row_ids
        → pack ≡ t.pack ++ more
        → Reaches acc (finish_group r content digest offset t)
    finish-Reaches content digest offset t acc more size (hash, full, small, mime)
          (held, after, inside) far lengths digests step same e =
        let fits : Fits (valid_record offset (length content) r.mime_id) = record {
          offset = far;
          length = omega (arith, small);
          mime_id = omega (arith, fine.mime);
          flags = omega arith;
        } in
        let (remembered, read, sound) =
          region-restored content offset acc mime full small
            (
              rw e (slice-append offset (length content) t.pack more inside ∙ held),
              after,
              rw e (omega (arith, length-append t.pack more)),
            )
            (put_records-HasRecords maximum_id _ t.index _ fine size fits refl same) lengths
            digests in
        (
          _,
          read
              ∙ ap
                  (λ d. restored (
                    restore_region r.group d offset (length content)
                      (record (remember_length offset (length content) acc) {
                        digest_by_record = remembered;
                      })))
                  (sym hash),
          finish-Matches blake2b pack r content digest offset t _ (step remembered sound),
        )

    place-Reaches :
        (content digest : Bytes) (s : BuildState) (acc : Restoring) (found : Option ℕ)
        (more : Bytes)
        → IsSound maximum_id s
        → IsHashed blake2b r.mime_id (some content) (some digest)
        → length s.pack + length content < 256 ^ 8
        → Matches blake2b pack s acc
        → ((offset : ℕ)
            → found ≡ some offset
            → ((slice offset (length content) s.pack ≡ content)
                × (64 ≤ offset)
                × (offset + length content ≤ length s.pack))
              × IsSeen acc (length content) offset)
        → All
            (λ id. record_at index id ≡ record_at (place r content digest found s).index id)
            r.group.row_ids
        → pack ≡ (place r content digest found s).pack ++ more
        → Reaches acc (place r content digest found s)
    place-Reaches content digest s acc (some offset) more h hashed room m found same e =
        let (region, seen) = found offset refl in
        finish-Reaches content digest offset (reuse content s) acc more h.size hashed region
          (omega arith) (ap (λ o. length_or o (length content)) seen.1) m.digests
          (λ digests sound.
            reuse-Matches blake2b pack content digest offset s acc digests m sound
              (omega (arith, hashed.1)) seen)
          same e
    place-Reaches content digest s acc none more h hashed room m found same e =
        finish-Reaches content digest (length s.pack) (append_content content digest s) acc more
          h.size hashed
          (slice_end s.pack content, h.header, omega (arith, length-append s.pack content))
          (omega arith)
          (ap (λ o. length_or o (length content)) (m.fresh (length s.pack) (omega arith)).1)
          m.digests
          (λ digests sound.
            append-Matches blake2b pack content digest s acc digests m sound hashed.1)
          same e

    consume_content-Reaches :
        (content digest : Option Bytes) (s : BuildState) (acc : Restoring) (more : Bytes)
        → IsSound maximum_id s
        → IsHashed blake2b r.mime_id content digest
        → length s.pack + content_size content < 256 ^ 8
        → Matches blake2b pack s acc
        → HasRecords s.index r.group.row_ids no_record
        → All
            (λ id. record_at index id ≡ record_at (consume_content r content digest s).index id)
            r.group.row_ids
        → pack ≡ (consume_content r content digest s).pack ++ more
        → Reaches acc (consume_content r content digest s)
    consume_content-Reaches none digest s acc more h hashed room m empty same e =
        missing-Reaches s acc m empty same
    consume_content-Reaches (some content) none s acc more h hashed room m empty same e =
        missing-Reaches s acc m empty same
    consume_content-Reaches (some content) (some digest) s acc more h hashed room m empty same e =
        place-Reaches content digest s acc
          (find_region content s.pack (s.regions digest (length content))) more h hashed room m
          (λ offset found. (
            find_region_lem content s.pack (length s.pack) (s.regions digest (length content))
                (h.regions digest (length content)) found,
            find_region-All (IsSeen acc (length content)) content s.pack
                (s.regions digest (length content)) offset (m.known digest (length content)) found,
          ))
          same e

    pub restore_group-Reaches :
        (s : BuildState) (acc : Restoring) (more : Bytes)
        → r.source_state ≡ source_state r.group
        → IsSound maximum_id s
        → IsHashed blake2b r.mime_id r.content r.digest
        → length s.pack + content_size r.content < 256 ^ 8
        → Matches blake2b pack s acc
        → All (λ id. record_at index id ≡ record_at (consume r s).index id) r.group.row_ids
        → pack ≡ (consume r s).pack ++ more
        → (next : Restoring) × (restore_group blake2b source_state index pack
              (length pack)
              r.group
              acc
            ≡ restored next)
          × Matches blake2b pack (consume r s) next
    unfolding restore_group consume
    restore_group-Reaches s acc more token h hashed room m same e =
        let (next, run, matches) =
          consume_content-Reaches r.content r.digest (begin_group r s)
            (begin_restore r.group r.source_state acc) more (begin-IsSound maximum_id r fine s h)
            hashed room (begin-Matches blake2b pack r s acc m)
            (begin-HasRecords maximum_id r fine s h) same e in
        (next, rw (sym token) run, matches)
