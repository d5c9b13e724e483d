-- ===== src/Pack/Build/Restore/State.antt =====
-- What `_restore_partial_build` keeps while it goes over the groups, and how a group changes it.
use yomitan_audio_fast.Prelude.{
  ℕ, ◌+◌, ◌*◌, List, [], ◌∷◌, ◌++◌, Bool, true, false, Option, none, some, ◌==◌, ◌&&◌, ◌||◌, not,
  ltb, length, is_some, if◌then◌else◌,
}
use yomitan_audio_fast.Prelude.Text.{Text}
use yomitan_audio_fast.Bytes.{Bytes}
use yomitan_audio_fast.Encoding.Decimal.{decimal}
use yomitan_audio_fast.Pack.{record_at}
use yomitan_audio_fast.Pack.Format.{IndexRecord, mime_by_id}
use yomitan_audio_fast.Pack.Groups.{AudioGroup, GroupKey, is_same}
use yomitan_audio_fast.Pack.Build.Consume.{Counters, no_counts, Regions, add_region, version_entry}

-- the reasons to start again: an empty group is an `IndexError`, the others are `ValueError`s
pub data RestoreError : Type 0 where
  no_rows : RestoreError
  inconsistent_records : RestoreError
  invalid_record : RestoreError
  other_length : RestoreError
  truncated_pack : RestoreError
  malformed_record : RestoreError
  boundary_moved : RestoreError
  counters_differ : RestoreError
  source_changed : RestoreError

-- `seen_offsets`, `length_by_offset` and `digest_by_record` are beside what the build itself keeps.
pub record Restoring : Type 0 where
  pub counters : Counters
  pub regions : Regions
  pub seen_offsets : ℕ → Bool
  pub length_by_offset : ℕ → Option ℕ
  pub digest_by_record : ℕ → ℕ → Option Bytes
  pub version_text : Bytes
  pub source_text : Bytes

pub data Restored : Type 0 where
  restored : Restoring → Restored
  refused : RestoreError → Restored

-- An exception leaves the loop.
abbrev pub and_then : Restored → (Restoring → Restored) → Restored
and_then (restored acc) f = f acc
and_then (refused e) f = refused e

-- what a restart reads of a checkpoint
pub record Checkpoint : Type 0 where
  pub last_key : Option GroupKey
  pub counters : Counters
  pub pack_bytes : ℕ
  pub source_state_sha256 : Text

abbrev pub start_restore : ℕ → ℕ → Restoring
start_restore db_size db_mtime_ns = record {
  counters = no_counts;
  regions = λ digest size. [];
  seen_offsets = λ offset. false;
  length_by_offset = λ offset. none;
  digest_by_record = λ offset size. none;
  version_text = decimal db_size ++ decimal db_mtime_ns;
  source_text = [];
}

unfoldable pub same_record : IndexRecord → IndexRecord → Bool
same_record r q =
    r.offset == q.offset && (r.length == q.length && (r.mime_id == q.mime_id && r.flags == q.flags))

-- whether the rows all have this record
unfoldable pub all_same : Bytes → IndexRecord → List ℕ → Bool
all_same index r [] = true
all_same index r (id ∷ ids) = same_record (record_at index id) r && all_same index r ids

-- mime_id not in MIME_BY_ID or length <= 0 or length > MAX_AUDIO_BYTES or …
unfoldable pub is_bad : ℕ → IndexRecord → Bool
is_bad pack_bytes r =
    not (is_some (mime_by_id r.mime_id))
    || r.length == 0
    || ltb (64 * 1024 * 1024) r.length
    || ltb r.offset 64
    || ltb pack_bytes (r.offset + r.length)

-- counters, and the source hash, of every group
abbrev pub begin_restore : AudioGroup → Bytes → Restoring → Restoring
begin_restore group source_state acc = record acc {
  source_text = acc.source_text ++ source_state;
  counters = record acc.counters {
    processed_source_paths = acc.counters.processed_source_paths + 1;
    processed_rows = acc.counters.processed_rows + length group.row_ids;
  };
}

abbrev pub restore_missing : Restoring → Restoring
restore_missing acc = record acc {
  counters = record acc.counters { missing_files = acc.counters.missing_files + 1 };
}

-- length_by_offset.setdefault(pack_offset, length)
abbrev pub length_or : Option ℕ → ℕ → ℕ
length_or none size = size
length_or (some previous) size = previous

unfoldable pub set_length : ℕ → ℕ → (ℕ → Option ℕ) → ℕ → Option ℕ
set_length offset size lengths o =
    if o == offset then some (length_or (lengths offset) size) else lengths o

unfoldable pub set_digest : ℕ → ℕ → Bytes → (ℕ → ℕ → Option Bytes) → ℕ → ℕ → Option Bytes
set_digest offset size digest digests o n =
    if o == offset && n == size then some digest else digests o n

unfoldable pub add_offset : ℕ → (ℕ → Bool) → ℕ → Bool
add_offset offset seen o = o == offset || seen o

abbrev pub restore_duplicate : ℕ → Restoring → Restoring
restore_duplicate size acc = record acc {
  counters = record acc.counters {
    content_duplicates = acc.counters.content_duplicates + 1;
    deduplicated_bytes_saved = acc.counters.deduplicated_bytes_saved + size;
  };
}

abbrev pub restore_new : Bytes → ℕ → ℕ → Restoring → Restoring
restore_new digest offset size acc = record acc {
  seen_offsets = add_offset offset acc.seen_offsets;
  regions = add_region digest size offset acc.regions;
  counters = record acc.counters { unique_files = acc.counters.unique_files + 1 };
}

abbrev pub restore_seen : Bool → Bytes → ℕ → ℕ → Restoring → Restoring
restore_seen true digest offset size acc = restore_duplicate size acc
restore_seen false digest offset size acc = restore_new digest offset size acc

abbrev pub finish_restore : AudioGroup → Bytes → Restoring → Restoring
finish_restore group digest acc = record acc {
  counters = record acc.counters {
    readable_source_paths = acc.counters.readable_source_paths + 1;
    valid_rows = acc.counters.valid_rows + length group.row_ids;
  };
  version_text = acc.version_text ++ version_entry group digest;
}

abbrev pub restore_region : AudioGroup → Bytes → ℕ → ℕ → Restoring → Restoring
restore_region group digest offset size acc =
    finish_restore group digest (restore_seen (acc.seen_offsets offset) digest offset size acc)

abbrev pub remember_length : ℕ → ℕ → Restoring → Restoring
remember_length offset size acc = record acc {
  length_by_offset = set_length offset size acc.length_by_offset;
}

abbrev pub remember_digest : ℕ → ℕ → Bytes → Restoring → Restoring
remember_digest offset size digest acc = record acc {
  digest_by_record = set_digest offset size digest acc.digest_by_record;
}

abbrev pub same_key : Option GroupKey → Option GroupKey → Bool
same_key none none = true
same_key none (some key) = false
same_key (some key) none = false
same_key (some key) (some other) = is_same key other

unfoldable pub same_counters : Counters → Counters → Bool
same_counters a b =
    a.processed_source_paths == b.processed_source_paths
    && a.processed_rows == b.processed_rows
    && a.valid_rows == b.valid_rows
    && a.readable_source_paths == b.readable_source_paths
    && a.unique_files == b.unique_files
    && a.content_duplicates == b.content_duplicates
    && a.deduplicated_bytes_saved == b.deduplicated_bytes_saved
    && a.missing_files == b.missing_files
