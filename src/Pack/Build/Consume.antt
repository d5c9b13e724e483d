-- ===== src/Pack/Build/Consume.antt =====
-- `consume` of `_build_audio_pack_locked`: the records of a group, the recording that it shares with
-- others, and the counters. A hash object is the bytes that it was fed.
use yomitan_audio_fast.Prelude.{
  ℕ, ◌+◌, ◌*◌, List, [], ◌∷◌, ◌++◌, Option, none, some, ◌==◌, ◌&&◌, length, if◌then◌else◌,
}
use yomitan_audio_fast.Prelude.Text.{text_eq}
use yomitan_audio_fast.Bytes.{Bytes, slice, write_at, zeros}
use yomitan_audio_fast.Encoding.Decimal.{decimal}
use yomitan_audio_fast.Encoding.Percent.{utf8}
use yomitan_audio_fast.Pack.Format.{IndexRecord, pack_magic}
use yomitan_audio_fast.Pack.Index.{put_record, index_size}
use yomitan_audio_fast.Pack.Groups.{AudioGroup}

-- `data` and `digest` are missing if the recording could not be read.
pub record ReadResult : Type 0 where
  pub group : AudioGroup
  pub content : Option Bytes
  pub digest : Option Bytes
  pub mime_id : ℕ
  pub source_state : Bytes

-- `_CHECKPOINT_COUNTERS`
pub record Counters : Type 0 where
  pub processed_source_paths : ℕ
  pub processed_rows : ℕ
  pub valid_rows : ℕ
  pub readable_source_paths : ℕ
  pub unique_files : ℕ
  pub content_duplicates : ℕ
  pub deduplicated_bytes_saved : ℕ
  pub missing_files : ℕ

abbrev pub no_counts : Counters
no_counts = record {
  processed_source_paths = 0;
  processed_rows = 0;
  valid_rows = 0;
  readable_source_paths = 0;
  unique_files = 0;
  content_duplicates = 0;
  deduplicated_bytes_saved = 0;
  missing_files = 0;
}

-- `digest_to_records`: the regions of the pack whose recording has this digest and this length
abbrev pub Regions : Type 0
Regions = Bytes → ℕ → List (ℕ × ℕ)

-- digest_to_records.setdefault((digest, length), []).append((offset, length))
unfoldable pub add_region : Bytes → ℕ → ℕ → Regions → Regions
add_region digest size offset regions d n =
    if text_eq digest d && size == n then regions d n ++ (offset, size) ∷ [] else regions d n

pub record BuildState : Type 0 where
  pub index : Bytes
  pub pack : Bytes
  pub regions : Regions
  pub counters : Counters
  pub version_text : Bytes
  pub source_text : Bytes

-- a new build, of a database of this size, modification time and highest id
unfoldable pub new_build : ℕ → ℕ → ℕ → BuildState
new_build db_size db_mtime_ns maximum_id = record {
  index = zeros (index_size maximum_id);
  pack = pack_magic ++ zeros 56;
  regions = λ digest size. [];
  counters = no_counts;
  version_text = decimal db_size ++ decimal db_mtime_ns;
  source_text = [];
}

-- `_clear_group_records`
unfoldable pub clear_group_records : List ℕ → Bytes → Bytes
clear_group_records [] index = index
clear_group_records (row_id ∷ row_ids) index =
    clear_group_records row_ids (write_at (64 + row_id * 16) (zeros 16) index)

-- the records of a group
unfoldable pub put_records : List ℕ → IndexRecord → Bytes → Bytes
put_records [] r index = index
put_records (row_id ∷ row_ids) r index = put_records row_ids r (put_record row_id r index)

-- the first of the regions that holds the recording
unfoldable pub find_region : Bytes → Bytes → List (ℕ × ℕ) → Option ℕ
find_region content pack [] = none
find_region content pack ((offset, size) ∷ regions) =
    let rest = find_region content pack regions in
    if text_eq (slice offset size pack) content then some offset else rest

-- what the version hash is fed for a group
abbrev pub version_entry : AudioGroup → Bytes → Bytes
version_entry group digest = utf8 group.source ++ (0 ∷ utf8 group.filename ++ (0 ∷ digest))

abbrev pub valid_record : ℕ → ℕ → ℕ → IndexRecord
valid_record offset size mime_id = record {
  offset = offset;
  length = size;
  mime_id = mime_id;
  flags = 1;
}

-- what is the same for each group
abbrev pub begin_group : ReadResult → BuildState → BuildState
begin_group r s = record s {
  index = clear_group_records r.group.row_ids s.index;
  source_text = s.source_text ++ r.source_state;
  counters = record s.counters {
    processed_source_paths = s.counters.processed_source_paths + 1;
    processed_rows = s.counters.processed_rows + length r.group.row_ids;
  };
}

abbrev pub count_missing : BuildState → BuildState
count_missing s = record s {
  counters = record s.counters { missing_files = s.counters.missing_files + 1 };
}

-- a recording that the pack holds already
abbrev pub reuse : Bytes → BuildState → BuildState
reuse content s = record s {
  counters = record s.counters {
    content_duplicates = s.counters.content_duplicates + 1;
    deduplicated_bytes_saved = s.counters.deduplicated_bytes_saved + length content;
  };
}

-- a new one, which goes to the end of the pack
abbrev pub append_content : Bytes → Bytes → BuildState → BuildState
append_content content digest s = record s {
  pack = s.pack ++ content;
  regions = add_region digest (length content) (length s.pack) s.regions;
  counters = record s.counters { unique_files = s.counters.unique_files + 1 };
}

-- the rows of a readable group
abbrev pub finish_group : ReadResult → Bytes → Bytes → ℕ → BuildState → BuildState
finish_group r content digest offset s = record s {
  index = put_records r.group.row_ids (valid_record offset (length content) r.mime_id) s.index;
  counters = record s.counters {
    readable_source_paths = s.counters.readable_source_paths + 1;
    valid_rows = s.counters.valid_rows + length r.group.row_ids;
  };
  version_text = s.version_text ++ version_entry r.group digest;
}

abbrev pub place : ReadResult → Bytes → Bytes → Option ℕ → BuildState → BuildState
place r content digest (some offset) s = finish_group r content digest offset (reuse content s)
place r content digest none s =
    finish_group r content digest (length s.pack) (append_content content digest s)

abbrev pub consume_content : ReadResult → Option Bytes → Option Bytes → BuildState → BuildState
consume_content r (some content) (some digest) s =
    place r content digest (find_region content s.pack (s.regions digest (length content))) s
consume_content r (some content) none s = count_missing s
consume_content r none digest s = count_missing s

unfoldable pub consume : ReadResult → BuildState → BuildState
unfolding clear_group_records put_records find_region
consume r s = consume_content r r.content r.digest (begin_group r s)

-- the loop over the results
unfoldable pub consume_all : List ReadResult → BuildState → BuildState
consume_all [] s = s
consume_all (r ∷ results) s = consume_all results (consume r s)
