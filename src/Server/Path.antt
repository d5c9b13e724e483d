-- ===== src/Server/Path.antt =====
-- The paths of requests and of loose files (anki-addon/server.py: `MIME_TYPE_BY_SUFFIX`, the tests and the
-- splitting in `_legacy_audio`, `_serve_audio_url` and `_dispatch`).
use yomitan_audio_fast.Prelude.{
  List, [], ◌∷◌, Option, none, some, Bool, false, ◌==◌, ◌&&◌, ◌||◌, if◌then◌else◌,
}
use yomitan_audio_fast.Prelude.Text.{Text, codes, text_eq}

-- MIME_TYPE_BY_SUFFIX.get(suffix)
unfoldable pub mime_type_by_suffix : Text → Option Text
mime_type_by_suffix suffix =
    if text_eq suffix (codes ".mp3")
    then some (codes "audio/mpeg")
    else if text_eq suffix (codes ".aac")
    then some (codes "audio/aac")
    else if text_eq suffix (codes ".m4a")
    then some (codes "audio/mp4")
    else if text_eq suffix (codes ".ogg")
    then some (codes "audio/ogg")
    else if text_eq suffix (codes ".oga")
    then some (codes "audio/ogg")
    else if text_eq suffix (codes ".opus")
    then some (codes "audio/ogg")
    else if text_eq suffix (codes ".flac")
    then some (codes "audio/flac")
    else if text_eq suffix (codes ".wav")
    then some (codes "audio/wav")
    else none

-- "\x00" in filename
unfoldable pub has_nul : Text → Bool
has_nul [] = false
has_nul (c ∷ cs) = c == 0 || has_nul cs

-- any(part == ".." for part in relative.parts)
unfoldable pub has_parent : List Text → Bool
has_parent [] = false
has_parent (part ∷ parts) = text_eq part (codes "..") || has_parent parts

-- path.lstrip("/")
unfoldable pub lstrip_slash : Text → Text
lstrip_slash [] = []
lstrip_slash (c ∷ cs) = let rest = lstrip_slash cs in if c == b'/' then rest else c ∷ cs

-- path.split("/")
unfoldable pub split_slashes : Text → List Text
split_slashes [] = [] ∷ []
split_slashes (c ∷ cs) =
    let rest = split_slashes cs in
    if c == b'/'
    then [] ∷ rest
    else elim rest [ [] ↦ (c ∷ []) ∷ [] | piece ∷ pieces ↦ (c ∷ piece) ∷ pieces ]

-- path.split("/", 1), if it has two parts
unfoldable pub split_first : Text → Option (Text × Text)
split_first [] = none
split_first (c ∷ cs) =
    let rest = split_first cs in
    if c == b'/' then some ([], cs) else elim rest [ none ↦ none | some (a, b) ↦ some (c ∷ a, b) ]

-- the version and the id of `/v/<version>/audio/<id>`
unfoldable pub packed_parts : List Text → Option (Text × Text)
packed_parts (v ∷ version ∷ audio ∷ audio_id ∷ []) =
    if text_eq v (codes "v") && text_eq audio (codes "audio")
    then some (version, audio_id)
    else none
packed_parts [] = none
packed_parts (a ∷ []) = none
packed_parts (a ∷ b ∷ []) = none
packed_parts (a ∷ b ∷ c ∷ []) = none
packed_parts (a ∷ b ∷ c ∷ d ∷ e ∷ parts) = none
