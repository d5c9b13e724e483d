-- ===== src/Pack/Format.antt =====
-- The record and header layouts of the index: `RECORD = struct.Struct("<QIBB2x")` and
-- `INDEX_HEADER = struct.Struct("<8sIIQQQQQ8x")`, and the table of media types.
pub mod Laws
use yomitan_audio_fast.Prelude.{
  ℕ, ◌+◌, ◌*◌, ◌==◌, ◌++◌, Option, none, some, if◌then◌else◌, List, [],
}
use yomitan_audio_fast.Prelude.Text.{Text, codes, text_eq}
use yomitan_audio_fast.Bytes.{Bytes, slice, le_value, le_bytes, zeros}

abbrev pub index_header_size : ℕ
index_header_size = 64

abbrev pub record_size : ℕ
record_size = 16

abbrev pub pack_header_size : ℕ
pack_header_size = 64

pub record IndexRecord : Type 0 where
  pub offset : ℕ
  pub length : ℕ
  pub mime_id : ℕ
  pub flags : ℕ

unfoldable pub unpack_record : Bytes → IndexRecord
unpack_record bytes = record {
  offset = le_value (slice 0 8 bytes);
  length = le_value (slice 8 4 bytes);
  mime_id = le_value (slice 12 1 bytes);
  flags = le_value (slice 13 1 bytes);
}

unfoldable pub pack_record : IndexRecord → Bytes
pack_record r =
    le_bytes 8 r.offset
    ++ (le_bytes 4 r.length ++ (le_bytes 1 r.mime_id ++ (le_bytes 1 r.flags ++ zeros 2)))

-- MIME_BY_ID.get(mime_id)
unfoldable pub mime_by_id : ℕ → Option Text
mime_by_id id =
    if id == 1
    then some (codes "audio/mpeg")
    else if id == 2
    then some (codes "audio/aac")
    else if id == 3
    then some (codes "audio/mp4")
    else if id == 4
    then some (codes "audio/ogg")
    else if id == 5
    then some (codes "audio/flac")
    else if id == 6
    then some (codes "audio/wav")
    else none

-- MIME_ID_BY_SUFFIX.get(suffix, 0)
unfoldable pub mime_id_by_suffix : Text → ℕ
mime_id_by_suffix suffix =
    if text_eq suffix (codes ".mp3")
    then 1
    else if text_eq suffix (codes ".aac")
    then 2
    else if text_eq suffix (codes ".m4a")
    then 3
    else if text_eq suffix (codes ".ogg")
    then 4
    else if text_eq suffix (codes ".oga")
    then 4
    else if text_eq suffix (codes ".opus")
    then 4
    else if text_eq suffix (codes ".flac")
    then 5
    else if text_eq suffix (codes ".wav")
    then 6
    else 0

-- The fields of the index header after its magic number.
pub record IndexHeader : Type 0 where
  pub format_version : ℕ
  pub record_bytes : ℕ
  pub maximum_id : ℕ
  pub valid_rows : ℕ
  pub pack_size : ℕ
  pub db_size : ℕ
  pub db_mtime_ns : ℕ

-- INDEX_MAGIC and PACK_MAGIC
abbrev pub index_magic : Bytes
index_magic = codes "LAFAPX01"

abbrev pub pack_magic : Bytes
pack_magic = codes "LAFPACK1"

unfoldable pub unpack_header : Bytes → IndexHeader
unpack_header bytes = record {
  format_version = le_value (slice 8 4 bytes);
  record_bytes = le_value (slice 12 4 bytes);
  maximum_id = le_value (slice 16 8 bytes);
  valid_rows = le_value (slice 24 8 bytes);
  pack_size = le_value (slice 32 8 bytes);
  db_size = le_value (slice 40 8 bytes);
  db_mtime_ns = le_value (slice 48 8 bytes);
}

unfoldable pub pack_header : IndexHeader → Bytes
pack_header h =
    index_magic
    ++ (le_bytes 4 h.format_version
        ++ (le_bytes 4 h.record_bytes
            ++ (le_bytes 8 h.maximum_id
                ++ (le_bytes 8 h.valid_rows
                    ++ (le_bytes 8 h.pack_size
                        ++ (le_bytes 8 h.db_size ++ (le_bytes 8 h.db_mtime_ns ++ zeros 8)))))))
