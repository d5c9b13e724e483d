-- ===== src/Tests/Pack.antt =====
-- A pack of one recording of four bytes, and its index.
use yomitan_audio_fast.Prelude.{◌≡◌, refl, [], ◌∷◌, ◌++◌, some, length, arith}
use yomitan_audio_fast.Prelude.Int.{pos}
use yomitan_audio_fast.Prelude.Text.{codes}
use yomitan_audio_fast.Bytes.{Bytes, slice, zeros, le_bytes, le_value, write_at}
use yomitan_audio_fast.Pack.{AudioPack, PackedAudio, record_at, get, view}
use yomitan_audio_fast.Pack.Format.{
  IndexRecord, IndexHeader, pack_record, unpack_record, pack_header, unpack_header, mime_by_id,
}
use yomitan_audio_fast.Pack.Format.Laws.{
  Fits, HeaderFits, unpack_record-pack_record, unpack_header-pack_header,
}
use yomitan_audio_fast.Pack.Index.{put_record, record_at-put_record_self, record_at-put_record_ne}
use yomitan_audio_fast.Pack.View.{IsInside, get-IsInside, view-part}

abbrev pub entry : IndexRecord
entry = record { offset = 64; length = 4; mime_id = 1; flags = 1 }

entry-Fits : Fits entry
entry-Fits = record {
  offset = omega arith;
  length = omega arith;
  mime_id = omega arith;
  flags = omega arith;
}

abbrev header : IndexHeader
header = record {
  format_version = 1;
  record_bytes = 16;
  maximum_id = 1;
  valid_rows = 1;
  pack_size = 68;
  db_size = 100;
  db_mtime_ns = 7;
}

header-HeaderFits : HeaderFits header
header-HeaderFits = record {
  format_version = omega arith;
  record_bytes = omega arith;
  maximum_id = omega arith;
  valid_rows = omega arith;
  pack_size = omega arith;
  db_size = omega arith;
  db_mtime_ns = omega arith;
}

unpack_record-pack_record_example : unpack_record (pack_record entry) ≡ entry
unpack_record-pack_record_example = unpack_record-pack_record entry entry-Fits

unpack_header-pack_header_example : unpack_header (pack_header header) ≡ header
unpack_header-pack_header_example = unpack_header-pack_header header header-HeaderFits

abbrev pub blank : Bytes
blank = zeros 96

blank_size : length blank ≡ 96
unfolding zeros
blank_size = refl

record_at-put_record_self_example : record_at (put_record 1 entry blank) 1 ≡ entry
record_at-put_record_self_example =
    record_at-put_record_self 1 1 entry blank blank_size (omega arith) entry-Fits

record_at-put_record_ne_example : record_at (put_record 1 entry blank) 0 ≡ record_at blank 0
record_at-put_record_ne_example =
    record_at-put_record_ne 1 1 entry blank blank_size (omega arith) 0 (omega arith)

abbrev pub small : AudioPack
small = record {
  version = codes "v1";
  maximum_id = 1;
  valid_rows = 1;
  minimum_pack_offset = 64;
  db_size = 100;
  db_mtime_ns = 7;
  index = put_record 1 entry blank;
  pack = zeros 64 ++ (1 ∷ 2 ∷ 3 ∷ 4 ∷ []);
}

abbrev pub audio : PackedAudio
audio = record { audio_id = 1; offset = 64; length = 4; mime_type = codes "audio/mpeg" }

pub get-small : get small (pos 1) ≡ some audio
unfolding get record_at put_record write_at zeros pack_record unpack_record le_bytes le_value
    mime_by_id
get-small = refl

get-IsInside_example : IsInside small audio
get-IsInside_example = get-IsInside small (pos 1) {audio = audio} get-small

view-part_example :
    (length (view small audio 1 2) ≡ 2) × (view small audio 1 2 ≡ slice 1 2 (view small audio 0 4))
view-part_example = view-part small (pos 1) audio 1 2 get-small (omega arith)
