-- ===== src/Pack/Build/Restore/Matches.antt =====
-- What the restart knows beside the build's own state, and the checks that it makes on a record.
use mathlib.Core.Path.{ap₂}
use yomitan_audio_fast.Prelude.{
  ℕ, ◌+◌, ◌*◌, ◌≤◌, ◌<◌, ◌≡◌, ◌∙◌, refl, sym, List, [], ◌∷◌, Option, none, some, true, false, ◌==◌,
  ◌&&◌, ltb, length, All, arith, ==_refl, is_some, inl, inr,
}
use yomitan_audio_fast.Bytes.{Bytes, slice}
use yomitan_audio_fast.Pack.Format.{IndexRecord, mime_by_id}
use yomitan_audio_fast.Pack.Groups.{AudioGroup}
use yomitan_audio_fast.Pack.Build.Consume.{BuildState, valid_record}
use yomitan_audio_fast.Pack.Build.Stored.Records.{no_record}
use yomitan_audio_fast.Pack.Build.Stored.Sound.{HasRecords}
use yomitan_audio_fast.Pack.Build.Restore.State.{
  Restoring, restored, same_record, is_bad, length_or, restore_missing, set_digest, restore_region,
  remember_length,
}
use yomitan_audio_fast.Pack.Build.Restore.{read_digest, restore_valid, restore_record, restore_rows}
use yomitan_audio_fast.Pack.Build.Restore.Maps.{all_same-HasRecords, found_or}

-- a region that the restart knows already
abbrev pub IsSeen : Restoring → ℕ → ℕ → Type 0
IsSeen acc size offset =
    (acc.seen_offsets offset ≡ true) × (acc.length_by_offset offset ≡ some size)

module _ (blake2b : Bytes → Bytes) (pack : Bytes) where
  -- the digests that are remembered are those of the pack's regions
  abbrev pub HasDigests : (ℕ → ℕ → Option Bytes) → Type 0
  HasDigests digests =
      (offset size : ℕ) (digest : Bytes)
      → digests offset size ≡ some digest
      → digest ≡ blake2b (slice offset size pack)

  -- the restart has come to what the build had at `s`
  pub record Matches (s : BuildState) (acc : Restoring) : Type 0 where
    pub counters : acc.counters ≡ s.counters
    pub regions : acc.regions ≡ s.regions
    pub version_text : acc.version_text ≡ s.version_text
    pub source_text : acc.source_text ≡ s.source_text
    pub known : (digest : Bytes) (size : ℕ) → All (λ e. IsSeen acc size e.0) (s.regions digest size)
    pub fresh :
        (offset : ℕ)
        → length s.pack ≤ offset
        → (acc.seen_offsets offset ≡ false) × (acc.length_by_offset offset ≡ none)
    pub digests : HasDigests acc.digest_by_record

  set_digest-HasDigests :
      (offset size : ℕ) (digests : ℕ → ℕ → Option Bytes)
      → HasDigests digests
      → HasDigests (set_digest offset size (blake2b (slice offset size pack)) digests)
  unfolding set_digest
  set_digest-HasDigests offset size digests h o n digest e =
      elim (found_or (o == offset && n == size) (blake2b (slice offset size pack)) digest
        (digests o n) e) [
          | inl same ↦
              sym same.1
              ∙ ap₂ (λ i j. blake2b (slice i j pack)) (ground (arith, same.0))
                  (ground (arith, same.0))
          | inr other ↦ h o n digest other
        ]

module _ (blake2b : Bytes → Bytes) (source_state : AudioGroup → Bytes) (index pack : Bytes)
    (group : AudioGroup) where
  pub restore_rows-HasRecords :
      (ids : List ℕ) (r : IndexRecord) (acc : Restoring)
      → 0 < length ids
      → HasRecords index ids r
      → restore_rows blake2b source_state index pack (length pack) group ids acc
        ≡ restore_record blake2b source_state index pack (length pack) group r acc
  unfolding restore_rows
  restore_rows-HasRecords [] r acc some_row h = ground arith
  restore_rows-HasRecords (id ∷ ids) r acc some_row h =
      rw (h.0, all_same-HasRecords index r (id ∷ ids) h) refl

  pub restore_record-missing :
      (acc : Restoring)
      → restore_record blake2b source_state index pack (length pack) group no_record acc
        ≡ restored (restore_missing acc)
  unfolding restore_record same_record
  restore_record-missing acc = refl

  -- the digest of a region, remembered or read
  pub read_digest_lem :
      (content : Bytes) (offset : ℕ) (acc : Restoring) (digest : Option Bytes)
      → ((d : Bytes) → digest ≡ some d → d ≡ blake2b (slice offset (length content) pack))
      → slice offset (length content) pack ≡ content
      → HasDigests blake2b pack acc.digest_by_record
      → (digests : ℕ → ℕ → Option Bytes) × (read_digest blake2b source_state index pack
            (length pack)
            group
            offset
            (length content)
            digest
            acc
          ≡ restored (
              restore_region group
                (blake2b content)
                offset
                (length content)
                (record acc { digest_by_record = digests })))
        × HasDigests blake2b pack digests
  unfolding read_digest
  read_digest_lem content offset acc (some d) known held h =
      (acc.digest_by_record, rw (known d refl, held) refl, h)
  read_digest_lem content offset acc none known held h = (
    set_digest offset (length content) (blake2b (slice offset (length content) pack))
        acc.digest_by_record,
    rw (held, ==_refl (length content)) refl,
    set_digest-HasDigests blake2b pack offset (length content) acc.digest_by_record h,
  )

  pub restore_valid_lem :
      (content : Bytes) (offset mime_id : ℕ) (acc : Restoring)
      → is_some (mime_by_id mime_id) ≡ true
      → 0 < length content
      → length content ≤ 64 * 1024 * 1024
      → 64 ≤ offset
      → offset + length content ≤ length pack
      → length_or (acc.length_by_offset offset) (length content) ≡ length content
      → restore_record blake2b source_state index pack
          (length pack)
          group
          (valid_record offset (length content) mime_id)
          acc
        ≡ read_digest blake2b source_state index pack
            (length pack)
            group
            offset
            (length content)
            (acc.digest_by_record offset (length content))
            (remember_length offset (length content) acc)
  unfolding restore_record restore_valid is_bad
  restore_valid_lem content offset mime_id acc mime full small after inside same =
      let fact_full : (length content == 0) ≡ false = ground arith in
      let fact_small : ltb (64 * 1024 * 1024) (length content) ≡ false = ground arith in
      let fact_after : ltb offset 64 ≡ false = ground arith in
      let fact_inside : ltb (length pack) (offset + length content) ≡ false = ground arith in
      rw (mime, same, ==_refl (length content))
        (rw (fact_full, fact_small, fact_after, fact_inside) refl)
