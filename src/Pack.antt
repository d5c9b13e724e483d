-- ===== src/Pack.antt =====
-- `AudioPack` of anki-addon/fast_pack.py: the row-id index and the packed audio, as their bytes.
pub mod Format
pub mod Index
pub mod View
pub mod Groups
pub mod Open
pub mod Build
use yomitan_audio_fast.Prelude.{
  ℕ, Bool, ◌+◌, ◌*◌, ◌%◌, Option, none, some, ◌||◌, ◌==◌, ltb, length, if◌then◌else◌,
}
use yomitan_audio_fast.Prelude.Int.{ℤ, pos, negsuc}
use yomitan_audio_fast.Prelude.Text.{Text}
use yomitan_audio_fast.Bytes.{Bytes, slice}
use Format.{IndexRecord, unpack_record, mime_by_id, index_header_size, record_size}

-- What an opened pack keeps: the mapped files and the fields of its header.
pub record AudioPack : Type 0 where
  pub version : Text
  pub maximum_id : ℕ
  pub valid_rows : ℕ
  pub minimum_pack_offset : ℕ
  pub db_size : ℕ
  pub db_mtime_ns : ℕ
  pub index : Bytes
  pub pack : Bytes

pub record PackedAudio : Type 0 where
  pub audio_id : ℕ
  pub offset : ℕ
  pub length : ℕ
  pub mime_type : Text

-- `RECORD.unpack_from(self._index, offset)` at a row id
unfoldable pub record_at : Bytes → ℕ → IndexRecord
record_at index audio_id =
    unpack_record (slice (index_header_size + audio_id * record_size) record_size index)

-- A record is passed over if it is not valid, empty, or not inside the pack. `flags & 1` is `flags % 2`.
abbrev pub is_unusable : AudioPack → IndexRecord → Bool
is_unusable p r =
    r.flags % 2 == 0
    || r.length == 0
    || ltb r.offset p.minimum_pack_offset
    || ltb (length p.pack) (r.offset + r.length)

-- `get`, whose id comes from a request and may be negative
unfoldable pub get : AudioPack → ℤ → Option PackedAudio
get p (negsuc n) = none
get p (pos audio_id) =
    if ltb p.maximum_id audio_id
    then none
    else (let r = record_at p.index audio_id in
        elim (mime_by_id r.mime_id) [
          | none ↦ none
          | some mime ↦
              if is_unusable p r
              then none
              else some (record {
                audio_id = audio_id;
                offset = r.offset;
                length = r.length;
                mime_type = mime;
              })
        ])

-- `view(audio, start, length)`
abbrev pub view : AudioPack → PackedAudio → ℕ → ℕ → Bytes
view p audio start size = slice (audio.offset + start) size p.pack
