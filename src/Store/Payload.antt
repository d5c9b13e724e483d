-- ===== src/Store/Payload.antt =====
-- What the store answers, from the selected rows: `_display_name`, `_legacy_audio_url`,
-- `_audio_url_with_pack`, `_lookup_with_pack`, `_first_lookup_with_pack`, `candidates_payload`.
use yomitan_audio_fast.Prelude.{
  ℕ, List, [], ◌∷◌, ◌++◌, Option, none, some, ◌==◌, if◌then◌else◌, map,
}
use yomitan_audio_fast.Prelude.Int.{pos}
use yomitan_audio_fast.Prelude.Text.{Text, codes}
use yomitan_audio_fast.Bytes.{Bytes}
use yomitan_audio_fast.Dict
use yomitan_audio_fast.Dict.{Dict}
use yomitan_audio_fast.Pack
use yomitan_audio_fast.Pack.{AudioPack}
use yomitan_audio_fast.Pack.Format.{mime_by_id, mime_id_by_suffix}
use yomitan_audio_fast.Encoding.Percent.{quote, utf8}
use yomitan_audio_fast.Encoding.Decimal.{decimal}
use yomitan_audio_fast.Encoding.Json.{
  Json, null, num, str, arr, obj, Items, nil, item, end, field, dumps,
}
use yomitan_audio_fast.Lookup.{Row}

-- Python's library where its result depends on more than the program: `template % display`, which may
-- raise, and `Path(filename).suffix.lower()`, which depends on the system's paths.
pub record Library : Type 0 where
  pub format_display : Text → Text → Option Text
  pub suffix_of : Text → Text

-- A configured source is its display template here.
abbrev pub Sources : Type 0
Sources = Dict Text

-- What the answers depend on besides the rows.
pub record Site : Type 0 where
  pub library : Library
  pub sources : Sources
  pub base_url : Text
  pub pack : Option AudioPack

abbrev pub formatted : Library → Text → Option Text → Text
formatted lib template none = template
formatted lib template (some display) = elim (lib.format_display template display) [
  | none ↦ template
  | some name ↦ name
]

unfoldable pub display_name : Site → Text → Option Text → Option Text
display_name site source_id display = elim (Dict.get source_id site.sources) [
  | none ↦ none
  | some template ↦ some (formatted site.library template display)
]

-- filename.replace("\\", "/"); 92 is the backslash
unfoldable pub with_slashes : Text → Text
with_slashes = map (λ c. if c == 92 then b'/' else c)

-- the characters that `quote` keeps in a file name
abbrev pub path_safe : Text
path_safe = codes "/!$&'()*+,;=:@-._~"

unfoldable pub legacy_audio_url : Text → Text → Text → Text
unfolding with_slashes
legacy_audio_url base_url source_id filename =
    base_url ++ (b'/' ∷ quote [] source_id ++ (b'/' ∷ quote path_safe (with_slashes filename)))

abbrev pub packed_audio_url : Text → AudioPack → ℕ → Text
packed_audio_url base_url pack row_id =
    base_url ++ (codes "/v/" ++ (pack.version ++ (codes "/audio/" ++ decimal row_id)))

-- `pack.get(row_id)`, if there is a pack
abbrev pub packed : Option AudioPack → ℕ → Option (AudioPack × Pack.PackedAudio)
packed none row_id = none
packed (some pack) row_id = elim (Pack.get pack (pos row_id)) [
  | none ↦ none
  | some audio ↦ some (pack, audio)
]

unfoldable pub audio_url_with_pack : Text → Option AudioPack → ℕ → Text → Text → Text
unfolding legacy_audio_url
audio_url_with_pack base_url pack row_id source_id filename = elim (packed pack row_id) [
  | none ↦ legacy_audio_url base_url source_id filename
  | some (p, audio) ↦ packed_audio_url base_url p row_id
]

abbrev pub row_url : Site → Row → Text
row_url site row = audio_url_with_pack site.base_url site.pack row.id row.source row.file

-- A row whose source has no configuration is left out.
unfoldable pub source_entries : Site → List Row → Items
unfolding display_name audio_url_with_pack
source_entries site [] = nil
source_entries site (row ∷ rows) =
    let rest = source_entries site rows in
    elim (display_name site row.source row.display) [
      | none ↦ rest
      | some name ↦
          item
            (obj
              (field (codes "name") (str name) (field (codes "url") (str (row_url site row)) end)))
            rest
    ]

unfoldable pub list_payload : Site → List Row → Bytes
unfolding source_entries
list_payload site rows = utf8 (
    dumps (
      obj (
        field (codes "type") (str (codes "audioSourceList"))
          (field (codes "audioSources") (arr (source_entries site rows)) end))))

abbrev pub optional_row : Option Row → List Row
optional_row none = []
optional_row (some row) = row ∷ []

abbrev pub text_or_null : Option Text → Json
text_or_null none = null
text_or_null (some text) = str text

-- MIME_BY_ID.get(mime_id, "application/octet-stream")
abbrev pub mime_or_default : Option Text → Text
mime_or_default none = codes "application/octet-stream"
mime_or_default (some mime) = mime

unfoldable pub candidate_mime : Site → Row → Text
candidate_mime site row = elim (packed site.pack row.id) [
  | none ↦ mime_or_default (mime_by_id (mime_id_by_suffix (site.library.suffix_of row.file)))
  | some (p, audio) ↦ audio.mime_type
]

unfoldable pub candidate : Site → Row → Text → Json
unfolding candidate_mime
candidate site row name = obj (
    field (codes "audioId") (num row.id) (
      field (codes "source") (str row.source) (
        field (codes "speaker") (text_or_null row.speaker) (
          field (codes "reading") (text_or_null row.reading) (
            field (codes "name") (str name) (
              field (codes "mime") (str (candidate_mime site row))
                (field (codes "url") (str (row_url site row)) end)))))))

unfoldable pub candidate_entries : Site → List Row → Items
unfolding candidate
candidate_entries site [] = nil
candidate_entries site (row ∷ rows) =
    let rest = candidate_entries site rows in
    elim (display_name site row.source row.display) [
      | none ↦ rest
      | some name ↦ item (candidate site row name) rest
    ]

abbrev pub pack_version : Option AudioPack → Text
pack_version none = codes "legacy"
pack_version (some pack) = pack.version

unfoldable pub candidates_list : Site → List Row → Bytes
unfolding candidate_entries
candidates_list site rows = utf8 (
    dumps (
      obj (
        field (codes "version") (str (pack_version site.pack))
          (field (codes "candidates") (arr (candidate_entries site rows)) end))))
