-- ===== src/Pack/Build/Restore/Turn.antt =====
-- One turn of `_restore_partial_build`'s loop, for a group that the build has consumed: it adds what
-- `consume` added.
use yomitan_audio_fast.Prelude.{
  ℕ, ◌+◌, ◌*◌, ◌≤◌, ◌<◌, ◌≡◌, ◌≢◌, ◌∙◌, ap, ◌++◌, Option, none, some, true, ◌==◌, ◌&&◌, length,
  length-append, All, All-imp, All-append_last, arith, Bool-cases, is_some, inl, inr,
}
use yomitan_audio_fast.Prelude.Text.{text_eq}
use yomitan_audio_fast.Bytes.{Bytes}
use yomitan_audio_fast.Pack.Format.{mime_by_id}
use yomitan_audio_fast.Pack.Build.Consume.{
  ReadResult, BuildState, Counters, add_region, begin_group, count_missing, finish_group, reuse,
  append_content, version_entry,
}
use yomitan_audio_fast.Pack.Build.Restore.State.{
  Restoring, begin_restore, finish_restore, restore_missing, set_length, add_offset, restore_seen,
  remember_length,
}
use yomitan_audio_fast.Pack.Build.Restore.Maps.{
  set_length_keep, set_length_ne, set_length_new, add_offset_keep, add_offset_ne, add_offset_self,
}
use yomitan_audio_fast.Pack.Build.Restore.Matches.{IsSeen, HasDigests, Matches}

module _ (blake2b : Bytes → Bytes) (pack : Bytes) where
  pub begin-Matches :
      (r : ReadResult) (s : BuildState) (acc : Restoring)
      → Matches blake2b pack s acc
      → Matches blake2b pack (begin_group r s) (begin_restore r.group r.source_state acc)
  begin-Matches r s acc m = record {
    counters =
        ap {A = Counters}
          (λ c. record c {
            processed_source_paths = c.processed_source_paths + 1;
            processed_rows = c.processed_rows + length r.group.row_ids;
          })
          m.counters;
    regions = m.regions;
    version_text = m.version_text;
    source_text = ap (λ text. text ++ r.source_state) m.source_text;
    known = m.known;
    fresh = m.fresh;
    digests = m.digests;
  }

  pub missing-Matches :
      (s : BuildState) (acc : Restoring)
      → Matches blake2b pack s acc
      → Matches blake2b pack (count_missing s) (restore_missing acc)
  missing-Matches s acc m = record {
    counters = ap {A = Counters} (λ c. record c { missing_files = c.missing_files + 1 }) m.counters;
    regions = m.regions;
    version_text = m.version_text;
    source_text = m.source_text;
    known = m.known;
    fresh = m.fresh;
    digests = m.digests;
  }

  pub finish-Matches :
      (r : ReadResult) (content digest : Bytes) (offset : ℕ) (s : BuildState) (acc : Restoring)
      → Matches blake2b pack s acc
      → Matches blake2b pack
          (finish_group r content digest offset s)
          (finish_restore r.group digest acc)
  finish-Matches r content digest offset s acc m = record {
    counters =
        ap {A = Counters}
          (λ c. record c {
            readable_source_paths = c.readable_source_paths + 1;
            valid_rows = c.valid_rows + length r.group.row_ids;
          })
          m.counters;
    regions = m.regions;
    version_text = ap (λ text. text ++ version_entry r.group digest) m.version_text;
    source_text = m.source_text;
    known = m.known;
    fresh = m.fresh;
    digests = m.digests;
  }

  -- a recording that the pack holds already
  pub reuse-Matches :
      (content digest : Bytes) (offset : ℕ) (s : BuildState) (acc : Restoring)
      (digests : ℕ → ℕ → Option Bytes)
      → Matches blake2b pack s acc
      → HasDigests blake2b pack digests
      → offset < length s.pack
      → IsSeen acc (length content) offset
      → Matches blake2b pack (reuse content s) (
          restore_seen
            (acc.seen_offsets offset)
            digest
            offset
            (length content)
            (record (remember_length offset (length content) acc) { digest_by_record = digests }))
  reuse-Matches content digest offset s acc digests m sound inside (seen, size) = rw seen (record {
    counters =
        ap {A = Counters}
          (λ c. record c {
            content_duplicates = c.content_duplicates + 1;
            deduplicated_bytes_saved = c.deduplicated_bytes_saved + length content;
          })
          m.counters;
    regions = m.regions;
    version_text = m.version_text;
    source_text = m.source_text;
    known = λ d n.
        All-imp (λ e. IsSeen acc n e.0)
          (λ e.
            IsSeen
              (record acc {
                length_by_offset = set_length offset (length content) acc.length_by_offset;
              })
              n e.0)
          (s.regions d n)
          (λ e h. (h.0, set_length_keep offset (length content) acc.length_by_offset e.0 n h.1))
          (m.known d n);
    fresh = λ o after. (
      (m.fresh o after).0,
      set_length_ne offset (length content) acc.length_by_offset o (λ e. omega (arith, e))
          ∙ (m.fresh o after).1,
    );
    digests = sound;
  })

  -- the regions after the recording went to the end of the pack
  append-IsSeen :
      (content digest : Bytes) (s : BuildState) (acc : Restoring)
      → 0 < length content
      → Matches blake2b pack s acc
      → (d : Bytes) (n : ℕ)
      → All
          (λ e.
            (add_offset (length s.pack) acc.seen_offsets e.0 ≡ true)
            × (set_length (length s.pack) (length content) acc.length_by_offset e.0 ≡ some n))
          (add_region digest (length content) (length s.pack) s.regions d n)
  unfolding add_region
  append-IsSeen content digest s acc full m d n =
      let Later : ℕ × ℕ → Type 0 = λ e.
        (add_offset (length s.pack) acc.seen_offsets e.0 ≡ true)
        × (set_length (length s.pack) (length content) acc.length_by_offset e.0 ≡ some n) in
      let old : All Later (s.regions d n) =
        All-imp (λ e. IsSeen acc n e.0) Later (s.regions d n)
          (λ e h. (
            add_offset_keep (length s.pack) acc.seen_offsets e.0 h.0,
            set_length_keep (length s.pack) (length content) acc.length_by_offset e.0 n h.1,
          ))
          (m.known d n) in
      elim (Bool-cases (text_eq digest d && length content == n)) [
        | inl e ↦
            let same : length content ≡ n = ground (arith, e) in
            rw e (
              All-append_last Later (s.regions d n) (length s.pack, length content) old
                (
                  add_offset_self (length s.pack) acc.seen_offsets,
                  set_length_new (length s.pack) (length content) acc.length_by_offset
                        (m.fresh (length s.pack) (omega arith)).1
                      ∙ ap some same,
                ))
        | inr e ↦ rw e old
      ]

  -- a new one
  pub append-Matches :
      (content digest : Bytes) (s : BuildState) (acc : Restoring) (digests : ℕ → ℕ → Option Bytes)
      → Matches blake2b pack s acc
      → HasDigests blake2b pack digests
      → 0 < length content
      → Matches blake2b pack (append_content content digest s) (
          restore_seen
            (acc.seen_offsets (length s.pack))
            digest
            (length s.pack)
            (length content)
            (record (remember_length (length s.pack) (length content) acc) {
              digest_by_record = digests;
            }))
  append-Matches content digest s acc digests m sound full =
      let (unseen, unset) = m.fresh (length s.pack) (omega arith) in
      rw unseen (record {
        counters =
            ap {A = Counters} (λ c. record c { unique_files = c.unique_files + 1 }) m.counters;
        regions = ap (add_region digest (length content) (length s.pack)) m.regions;
        version_text = m.version_text;
        source_text = m.source_text;
        known = append-IsSeen content digest s acc full m;
        fresh = λ o after.
            let apart : o ≢ length s.pack =
              λ e. omega (arith, e, length-append s.pack content, after, full) in
            let before : length s.pack ≤ o = omega (arith, length-append s.pack content, after) in
            (
              add_offset_ne (length s.pack) acc.seen_offsets o apart (m.fresh o before).0,
              set_length_ne (length s.pack) (length content) acc.length_by_offset o apart
                  ∙ (m.fresh o before).1,
            );
        digests = sound;
      })

-- what the restart relies on in a result: the group has rows, and a recording that could be read has the
-- digest of its bytes, a known type and an allowed size
abbrev pub IsHashed : (Bytes → Bytes) → ℕ → Option Bytes → Option Bytes → Type 0
IsHashed blake2b mime_id none digest = Unit
IsHashed blake2b mime_id (some content) none = Unit
IsHashed blake2b mime_id (some content) (some digest) =
    (digest ≡ blake2b content)
    × (0 < length content)
    × (length content ≤ 64 * 1024 * 1024)
    × (is_some (mime_by_id mime_id) ≡ true)
