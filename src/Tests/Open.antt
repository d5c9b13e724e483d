-- ===== src/Tests/Open.antt =====
-- A pack of one recording of four zeros, opened from its files.
use yomitan_audio_fast.Prelude.{
  ◌≡◌, refl, true, ◌++◌, if◌then◌else◌, Option, none, some, length, any,
}
use yomitan_audio_fast.Prelude.Text.{Text, codes, text_eq}
use yomitan_audio_fast.Bytes.{zeros, le_bytes, le_value}
use yomitan_audio_fast.Pack.{AudioPack}
use yomitan_audio_fast.Pack.Format.{IndexHeader, pack_header, unpack_header}
use yomitan_audio_fast.Pack.Index.{index_size}
use yomitan_audio_fast.Pack.Open.{
  Manifest, PackFiles, ActiveManifest, opened, open_version, open_active, is_version, is_hash,
  manifest_fits, header_fits, magic_fits,
}
use yomitan_audio_fast.Pack.Open.Sound.{open_version-index, open_active-database}

abbrev name : Text
name = codes "0123456789abcdef"

abbrev hash : Text
hash = codes "0123456789abcdef0123456789abcdef0123456789abcdef0123456789abcdef"

abbrev manifest : Manifest
manifest = record {
  format = some (codes "local-audio-fast-pack-v1");
  version = some name;
  pack_format = some (codes "lafpack1");
  index_file = some (codes "audio.idx");
  pack_file = some (codes "audio.pack");
  index_bytes = some 96;
  pack_bytes = some 68;
  index_sha256 = some hash;
  pack_sha256 = some hash;
}

abbrev header : IndexHeader
header = record {
  format_version = 1;
  record_bytes = 16;
  maximum_id = 1;
  valid_rows = 0;
  pack_size = 68;
  db_size = 100;
  db_mtime_ns = 7;
}

abbrev on_disk : PackFiles
on_disk = record {
  manifest = manifest;
  index = pack_header header ++ zeros 32;
  pack = codes "LAFPACK1" ++ zeros 60;
}

abbrev files : Text → Option PackFiles
files version = if text_eq version name then some on_disk else none

abbrev pack : AudioPack
pack = opened name on_disk header

open-name : open_version files name ≡ some pack
unfolding open_version manifest_fits header_fits magic_fits is_hash is_version text_eq pack_header
    unpack_header zeros le_bytes le_value any
open-name = refl

open_version-index_example :
    (pack.version ≡ name)
    × (is_version name ≡ true)
    × (length pack.index ≡ index_size pack.maximum_id)
open_version-index_example = open_version-index files name {p = pack} open-name

abbrev active : ActiveManifest
active = record { format = some (codes "local-audio-fast-pack-v1"); version = some name }

open-active : open_active files (some active) 100 7 ≡ some pack
unfolding open_active open_version manifest_fits header_fits magic_fits is_hash is_version text_eq
    pack_header unpack_header zeros le_bytes le_value any
open-active = refl

open_active-database_example :
    (pack.db_size ≡ 100) × (pack.db_mtime_ns ≡ 7) × (open_version files pack.version ≡ some pack)
open_active-database_example = open_active-database files (some active) 100 7 {p = pack} open-active
