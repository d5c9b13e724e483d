-- ===== src/Pack/Open.antt =====
-- Opening a pack (anki-addon/fast_pack.py: `AudioPack.open_version`, `AudioPack.open_active`). The manifest
-- is the object that its JSON text stands for; a field that is missing or of another type is `none`.
-- The files of the version, if they can be read, are their bytes.
pub mod Sound
use yomitan_audio_fast.Prelude.{
  ℕ, ◌+◌, ◌*◌, List, [], ◌∷◌, Option, none, some, Bool, true, false, not, ◌&&◌, ◌||◌, ◌==◌, ltb,
  leb, length, any, if◌then◌else◌,
}
use yomitan_audio_fast.Prelude.Text.{Text, codes, text_eq}
use yomitan_audio_fast.Bytes.{Bytes, slice}
use yomitan_audio_fast.Pack.{AudioPack}
use yomitan_audio_fast.Pack.Format.{
  IndexHeader, unpack_header, index_magic, pack_magic, index_header_size, record_size,
  pack_header_size,
}

pub record Manifest : Type 0 where
  pub format : Option Text
  pub version : Option Text
  pub pack_format : Option Text
  pub index_file : Option Text
  pub pack_file : Option Text
  pub index_bytes : Option ℕ
  pub pack_bytes : Option ℕ
  pub index_sha256 : Option Text
  pub pack_sha256 : Option Text

pub record PackFiles : Type 0 where
  pub manifest : Manifest
  pub index : Bytes
  pub pack : Bytes

abbrev pub is_text : Option Text → Text → Bool
is_text none text = false
is_text (some t) text = text_eq t text

abbrev pub is_number : Option ℕ → ℕ → Bool
is_number none n = false
is_number (some m) n = m == n

abbrev pub is_lower_hex : ℕ → Bool
is_lower_hex c = (leb b'0' c && leb c b'9') || (leb b'a' c && leb c b'f')

abbrev pub is_hex : ℕ → Bool
is_hex c = is_lower_hex c || (leb b'A' c && leb c b'F')

-- VERSION_RE.fullmatch(version)
unfoldable pub is_version : Text → Bool
is_version version = length version == 16 && not (any (λ c. not (is_lower_hex c)) version)

-- HASH_RE.fullmatch(value.lower())
unfoldable pub is_hash : Option Text → Bool
is_hash none = false
is_hash (some value) = length value == 64 && not (any (λ c. not (is_hex c)) value)

abbrev pub is_laf : Manifest → Bool
is_laf m = is_text m.pack_format (codes "lafpack1")

unfoldable pub manifest_fits : Text → PackFiles → Bool
unfolding is_hash
manifest_fits version f =
    is_text f.manifest.format (codes "local-audio-fast-pack-v1")
    && (is_text f.manifest.version version
        && ((is_laf f.manifest || is_text f.manifest.pack_format (codes "rust-yaf-v1"))
            && (is_text f.manifest.index_file (codes "audio.idx")
                && (is_text f.manifest.pack_file (codes "audio.pack")
                    && (is_number f.manifest.index_bytes (length f.index)
                        && (is_number f.manifest.pack_bytes (length f.pack)
                            && (is_hash f.manifest.index_sha256
                                && is_hash f.manifest.pack_sha256)))))))

-- A header that is too short is a `struct.error`.
unfoldable pub header_fits : PackFiles → IndexHeader → Bool
header_fits f h =
    leb index_header_size (length f.index)
    && (text_eq (slice 0 8 f.index) index_magic
        && (h.format_version == 1
            && (h.record_bytes == record_size
                && (length f.index == index_header_size + (h.maximum_id + 1) * record_size
                    && length f.pack == h.pack_size))))

unfoldable pub magic_fits : PackFiles → Bool
magic_fits f = not (is_laf f.manifest) || text_eq (slice 0 8 f.pack) pack_magic

abbrev pub opened : Text → PackFiles → IndexHeader → AudioPack
opened version f h = record {
  version = version;
  maximum_id = h.maximum_id;
  valid_rows = h.valid_rows;
  minimum_pack_offset = if is_laf f.manifest then pack_header_size else 0;
  db_size = h.db_size;
  db_mtime_ns = h.db_mtime_ns;
  index = f.index;
  pack = f.pack;
}

-- `open_version`, with the files of each version, where there are any
unfoldable pub open_version : (Text → Option PackFiles) → Text → Option AudioPack
open_version files version = elim (files version) [
  | none ↦ none
  | some f ↦
      let h = unpack_header (slice 0 64 f.index) in
      if is_version version && (manifest_fits version f && (header_fits f h && magic_fits f))
      then some (opened version f h)
      else none
]

-- The active manifest: its format and its version.
pub record ActiveManifest : Type 0 where
  pub format : Option Text
  pub version : Option Text

-- if pack.db_size != db_stat.st_size or pack.db_mtime_ns != db_stat.st_mtime_ns
abbrev pub if_current : ℕ → ℕ → Option AudioPack → Option AudioPack
if_current db_size db_mtime_ns none = none
if_current db_size db_mtime_ns (some pack) =
    if pack.db_size == db_size && pack.db_mtime_ns == db_mtime_ns then some pack else none

abbrev pub open_named : (Text → Option PackFiles) → Option Text → Option AudioPack
open_named files none = none
open_named files (some version) = open_version files version

-- `open_active`, of a database of this size and modification time
unfoldable pub open_active :
    (Text → Option PackFiles) → Option ActiveManifest → ℕ → ℕ → Option AudioPack
open_active files none db_size db_mtime_ns = none
open_active files (some active) db_size db_mtime_ns =
    if is_text active.format (codes "local-audio-fast-pack-v1")
    then if_current db_size db_mtime_ns (open_named files active.version)
    else none
