-- ===== src/Pack/Build/Restore.antt =====
-- `_restore_partial_build`: what an interrupted build knew, read back from its index and its pack. Reports
-- of progress and cancelling are left out.
pub mod State
pub mod Maps
pub mod Matches
pub mod Turn
pub mod Reach
pub mod Resumed
pub mod Checked
pub mod Accepted
use yomitan_audio_fast.Prelude.{
  ℕ, ◌+◌, ◌*◌, ◌%◌, List, [], ◌∷◌, ◌++◌, Bool, true, false, Option, none, some, ◌==◌, ◌&&◌, ◌||◌,
  not, ltb, length, is_some, if◌then◌else◌,
}
use yomitan_audio_fast.Prelude.Text.{Text, text_eq}
use yomitan_audio_fast.Bytes.{Bytes, slice}
use yomitan_audio_fast.Encoding.Decimal.{decimal}
use yomitan_audio_fast.Pack.{record_at}
use yomitan_audio_fast.Pack.Format.{IndexRecord, mime_by_id}
use yomitan_audio_fast.Pack.Groups.{PackRow, AudioGroup, GroupKey, is_same, group_rows}
use yomitan_audio_fast.Pack.Build.Consume.{
  BuildState, Counters, no_counts, Regions, add_region, version_entry,
}
use yomitan_audio_fast.Pack.Build.Restore.State.{
  Checkpoint, RestoreError, Restored, Restoring, add_offset, all_same, and_then, begin_restore,
  boundary_moved, counters_differ, finish_restore, inconsistent_records, invalid_record, is_bad,
  length_or, malformed_record, no_rows, other_length, refused, remember_digest, remember_length,
  restore_duplicate, restore_missing, restore_new, restore_region, restore_seen, restored,
  same_counters, same_key, same_record, set_digest, set_length, source_changed, start_restore,
  truncated_pack,
}

-- `blake2b` and `sha256` are hashlib's; `source_state` is the token of a group's file, by
-- `_source_state_token`; `index` and `pack` are the mapped files.
module _ (blake2b : Bytes → Bytes) (source_state : AudioGroup → Bytes) (index pack : Bytes)
    (pack_bytes : ℕ) where
  unfoldable pub read_digest : AudioGroup → ℕ → ℕ → Option Bytes → Restoring → Restored
  read_digest group offset size (some digest) acc =
      restored (restore_region group digest offset size acc)
  read_digest group offset size none acc =
      let content = slice offset size pack in
      let digest = blake2b content in
      if length content == size
      then restored
          (restore_region group digest offset size (remember_digest offset size digest acc))
      else refused truncated_pack

  unfoldable pub restore_valid : AudioGroup → IndexRecord → Restoring → Restored
  restore_valid group r acc =
      if is_bad pack_bytes r
      then refused invalid_record
      else if not (length_or (acc.length_by_offset r.offset) r.length == r.length)
      then refused other_length
      else read_digest group r.offset r.length (acc.digest_by_record r.offset r.length)
          (remember_length r.offset r.length acc)

  unfoldable pub restore_record : AudioGroup → IndexRecord → Restoring → Restored
  restore_record group r acc =
      if not (r.flags % 2 == 0)
      then restore_valid group r acc
      else if same_record r (record { offset = 0; length = 0; mime_id = 0; flags = 0 })
      then restored (restore_missing acc)
      else refused malformed_record

  unfoldable pub restore_rows : AudioGroup → List ℕ → Restoring → Restored
  restore_rows group [] acc = refused no_rows
  restore_rows group (id ∷ ids) acc =
      if all_same index (record_at index id) (id ∷ ids)
      then restore_record group (record_at index id) acc
      else refused inconsistent_records

  -- one turn of the loop
  unfoldable pub restore_group : AudioGroup → Restoring → Restored
  restore_group group acc =
      restore_rows group group.row_ids (begin_restore group (source_state group) acc)

  unfoldable pub restore_loop : List AudioGroup → Restoring → Restored
  restore_loop [] acc = restored acc
  restore_loop (group ∷ groups) acc =
      and_then (restore_group group acc) (λ next. restore_loop groups next)

unfoldable pub last_group : List AudioGroup → Option GroupKey
last_group [] = none
last_group (g ∷ []) = some (g.source, g.filename)
last_group (g ∷ h ∷ groups) = last_group (h ∷ groups)

-- what is checked after the loop
unfoldable pub check_restored : (Bytes → Text) → Checkpoint → Option GroupKey → Restoring → Restored
check_restored sha256 checkpoint actual_last_key acc =
    if not (same_key actual_last_key checkpoint.last_key)
    then refused boundary_moved
    else if not (same_counters acc.counters checkpoint.counters)
    then refused counters_differ
    else if not (text_eq (sha256 acc.source_text) checkpoint.source_state_sha256)
    then refused source_changed
    else restored acc

-- the loop and the checks after it
unfoldable pub restore_groups :
    (Bytes → Bytes)
    → (Bytes → Text)
    → (AudioGroup → Bytes)
    → Bytes
    → Bytes
    → Checkpoint
    → ℕ
    → ℕ
    → List AudioGroup
    → Restored
restore_groups blake2b sha256 source_state index pack checkpoint db_size db_mtime_ns groups =
    and_then
      (restore_loop blake2b source_state index pack checkpoint.pack_bytes groups
        (start_restore db_size db_mtime_ns))
      (λ acc. check_restored sha256 checkpoint (last_group groups) acc)

-- `_restore_partial_build`, for a table with this size, modification time and rows
abbrev pub restore_partial_build :
    (Bytes → Bytes)
    → (Bytes → Text)
    → (AudioGroup → Bytes)
    → Bytes
    → Bytes
    → Checkpoint
    → ℕ
    → ℕ
    → List PackRow
    → Restored
restore_partial_build blake2b sha256 source_state index pack checkpoint db_size db_mtime_ns table =
    restore_groups blake2b sha256 source_state index pack checkpoint db_size db_mtime_ns
      (group_rows none checkpoint.last_key table)

-- what the build keeps after a restart: the mapped files and what was restored
abbrev pub resumed : Restoring → Bytes → Bytes → BuildState
resumed acc index pack = record {
  index = index;
  pack = pack;
  regions = acc.regions;
  counters = acc.counters;
  version_text = acc.version_text;
  source_text = acc.source_text;
}

-- `write_checkpoint`, as far as a restart reads it
abbrev pub checkpoint_of : (Bytes → Text) → Option GroupKey → BuildState → Checkpoint
checkpoint_of sha256 last_key s = record {
  last_key = last_key;
  counters = s.counters;
  pack_bytes = length s.pack;
  source_state_sha256 = sha256 s.source_text;
}
