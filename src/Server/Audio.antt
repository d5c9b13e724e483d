-- ===== src/Server/Audio.antt =====
-- Audio responses of `LocalAudioHandler` (anki-addon/server.py: `_audio_headers`, `_not_modified`,
-- `_packed_audio`, and what `_legacy_audio` does with a file that it found). A file is the list of its
-- bytes, which does not change while it is served.
pub mod Framing
use yomitan_audio_fast.Prelude.{
  ℕ, zero, suc, ◌+◌, ◌-◌, ◌/◌, ◌%◌, List, [], ◌∷◌, ◌++◌, Option, none, some, Bool, true, false,
  length, is_some, ◌||◌, not, ltb, ◌==◌, if◌then◌else◌, map,
}
use yomitan_audio_fast.Prelude.Text.{Text, codes, contains}
use yomitan_audio_fast.Bytes.{Bytes, slice}
use yomitan_audio_fast.Encoding.Decimal.{decimal, strip, int_of_text}
use yomitan_audio_fast.Encoding.Json.{lower_hex}
use yomitan_audio_fast.Pack
use yomitan_audio_fast.Pack.{AudioPack, PackedAudio}
use yomitan_audio_fast.Server.Range.{range}
use yomitan_audio_fast.Server.Response.{Response, Headers}

-- the two request headers that matter
pub record RequestHeaders : Type 0 where
  pub range : Option Text
  pub if_none_match : Option Text

abbrev pub default_cache_control : Bool → Text
default_cache_control immutable =
    if immutable then codes "public, max-age=31536000, immutable" else codes "public, max-age=3600"

-- cache_control if cache_control is not None else ...
abbrev pub cache_value : Option Text → Bool → Text
cache_value none immutable = default_cache_control immutable
cache_value (some value) immutable = value

-- f"bytes {start}-{start + length - 1}/{size}"; a range that was asked for is not empty
abbrev pub content_range : ℕ → ℕ × ℕ → Headers
content_range size (start, count) =
    (
      codes "Content-Range",
      codes "bytes "
          ++ (decimal start ++ (b'-' ∷ decimal (start + count - 1) ++ (b'/' ∷ decimal size))),
    )
    ∷ []

-- `_audio_headers`, and the bytes that follow
unfoldable pub audio_response :
    Text → ℕ → ℕ × ℕ → Text → Bool → Bool → Option Text → Bytes → Response
audio_response mime_type size selected etag immutable range_requested cache_control body = record {
  status = if range_requested then 206 else 200;
  content_type = some mime_type;
  content_length = some selected.1;
  extra =
      (codes "Accept-Ranges", codes "bytes")
      ∷ (codes "ETag", etag)
      ∷ (codes "Cache-Control", cache_value cache_control immutable)
      ∷ (if range_requested then content_range size selected else []);
  body = body;
}

unfoldable pub split_commas : Text → List Text
split_commas [] = [] ∷ []
split_commas (c ∷ cs) =
    let rest = split_commas cs in
    if c == b','
    then [] ∷ rest
    else elim rest [ [] ↦ (c ∷ []) ∷ [] | piece ∷ pieces ↦ (c ∷ piece) ∷ pieces ]

abbrev pub text_or_empty : Option Text → Text
text_or_empty none = []
text_or_empty (some text) = text

-- the test of `_not_modified`
unfoldable pub matches_etag : RequestHeaders → Text → Bool
unfolding split_commas
matches_etag headers etag =
    if is_some headers.range
    then false
    else (let candidates = map strip (split_commas (text_or_empty headers.if_none_match)) in
        contains etag candidates || contains (codes "*") candidates)

abbrev pub not_modified : Text → Bool → Option Text → Response
not_modified etag immutable cache_control = record {
  status = 304;
  content_type = none;
  content_length = none;
  extra = (codes "ETag", etag) ∷ (codes "Cache-Control", cache_value cache_control immutable) ∷ [];
  body = [];
}

-- 416
abbrev pub not_satisfiable : ℕ → Response
not_satisfiable size = record {
  status = 416;
  content_type = some (codes "text/plain; charset=utf-8");
  content_length = some 0;
  extra = (codes "Content-Range", codes "bytes */" ++ decimal size) ∷ [];
  body = [];
}

abbrev pub quoted : Text → Text
quoted text = b'"' ∷ text ++ (b'"' ∷ [])

-- The answer on a resource of `size` bytes, of which `part` takes the part that is selected.
unfoldable pub serve :
    RequestHeaders → Bool → Text → ℕ → Text → Bool → Option Text → (ℕ × ℕ → Bytes) → Response
unfolding audio_response matches_etag
serve headers head_only mime_type size etag immutable cache_control part =
    if matches_etag headers etag
    then not_modified etag immutable cache_control
    else elim (range headers.range size) [
      | none ↦ not_satisfiable size
      | some selected ↦
          audio_response mime_type size selected etag immutable (is_some headers.range)
            cache_control (if head_only then [] else part selected)
    ]

-- what `_packed_audio` does once it has the recording
abbrev pub serve_packed :
    RequestHeaders → Bool → Text → Option Text → AudioPack → PackedAudio → Response
serve_packed headers head_only version cache_control pack audio =
    serve headers head_only audio.mime_type audio.length
      (quoted (version ++ (b'-' ∷ decimal audio.audio_id))) true cache_control
      (λ selected. Pack.view pack audio selected.0 selected.1)

-- `_packed_audio`, with the pack that the store leases for the version, if it has one; `none` is the
-- answer `False`, on which the caller goes on.
unfoldable pub packed_audio :
    (Text → Option AudioPack) → RequestHeaders → Text → Text → Bool → Option Text → Option Response
packed_audio leased headers version audio_id_text head_only cache_control =
    elim (int_of_text audio_id_text) [
      | none ↦ none
      | some audio_id ↦ elim (leased version) [
        | none ↦ none
        | some pack ↦ elim (Pack.get pack audio_id) [
          | none ↦ none
          | some audio ↦ some (serve_packed headers head_only version cache_control pack audio)
        ]
      ]
    ]

-- f"{n:x}"
unfoldable pub hex_fuel : ℕ → ℕ → Text
hex_fuel zero n = []
hex_fuel (suc fuel) n =
    let rest = hex_fuel fuel (n / 16) in
    if ltb n 16 then lower_hex n ∷ [] else rest ++ (lower_hex (n % 16) ∷ [])

abbrev pub hex : ℕ → Text
hex n = hex_fuel (suc n) n

-- the end of `_legacy_audio`, for a file of this type, modification time and content
unfoldable pub serve_file : RequestHeaders → Bool → Text → ℕ → Bytes → Option Text → Response
unfolding hex_fuel
serve_file headers head_only mime_type mtime_ns bytes cache_control =
    serve headers head_only mime_type (length bytes)
      (quoted (hex mtime_ns ++ (b'-' ∷ hex (length bytes)))) false cache_control
      (λ selected. slice selected.0 selected.1 bytes)
