-- ===== src/Pack/Build/Read.antt =====
-- `_source_state_token` and `_read_group` of anki-addon/fast_pack.py.
pub mod Results
use yomitan_audio_fast.Prelude.{
  ℕ, ◌*◌, ◌+◌, List, [], ◌∷◌, Option, none, some, Bool, false, ◌==◌, ◌||◌, not, ltb, length, map,
  is_some, if◌then◌else◌,
}
use yomitan_audio_fast.Prelude.Text.{Text, codes, text_eq}
use yomitan_audio_fast.Bytes.{Bytes}
use yomitan_audio_fast.Encoding.Percent.{utf8}
use yomitan_audio_fast.Pack.Format.{mime_id_by_suffix}
use yomitan_audio_fast.Pack.Groups.{AudioGroup}
use yomitan_audio_fast.Pack.Build.Consume.{ReadResult}

-- `os.stat_result`, the fields that are used
pub record FileStat : Type 0 where
  pub st_dev : ℕ
  pub st_ino : ℕ
  pub st_mode : ℕ
  pub st_size : ℕ
  pub st_mtime_ns : ℕ
  pub st_ctime_ns : ℕ

-- an item of the list `state`
pub data StateItem : Type 0 where
  text : Text → StateItem
  number : ℕ → StateItem

-- What pathlib, os and json answer at one moment; `none` is an OSError. `resolve root relative` is
-- `(root / relative).resolve(strict=True)`, `is_inside root path` whether `path.relative_to(root)` raises no
-- error, `suffix path` is `path.suffix.lower()`, and `dumps` is `json.dumps` with the usual separators,
-- `dumps_compact` without spaces.
pub record Files : Type 0 where
  pub is_absolute : Text → Bool
  pub parts : Text → List Text
  pub resolve : Text → Text → Option Text
  pub is_inside : Text → Text → Bool
  pub suffix : Text → Text
  pub stat : Text → Option FileStat
  pub is_file : Text → Bool
  pub read_bytes : Text → Option Bytes
  pub dumps : List StateItem → Text
  pub dumps_compact : List StateItem → Text

pub record Token : Type 0 where
  pub path : Option Text
  pub mime_id : ℕ
  pub state : Bytes

-- group.filename.replace("\\", "/")
abbrev pub with_slashes : Text → Text
with_slashes = map (λ c. if c == 92 then 47 else c)

-- any(part in ("", ".", "..") for part in relative.parts)
unfoldable pub has_dots : List Text → Bool
has_dots [] = false
has_dots (part ∷ parts) =
    (text_eq part [] || text_eq part (codes ".") || text_eq part (codes "..")) || has_dots parts

abbrev pub reason : AudioGroup → Text → List StateItem
reason group why = text group.source ∷ text group.filename ∷ text why ∷ []

abbrev pub file_state : AudioGroup → FileStat → List StateItem
file_state group s =
    text group.source
    ∷ text group.filename
    ∷ text (codes "file")
    ∷ number s.st_dev
    ∷ number s.st_ino
    ∷ number s.st_mode
    ∷ number s.st_size
    ∷ number s.st_mtime_ns
    ∷ number s.st_ctime_ns
    ∷ []

module _ (files : Files) (group : AudioGroup) where
  abbrev pub no_file : Text → Token
  no_file why = record { path = none; mime_id = 0; state = utf8 (files.dumps (reason group why)) }

  abbrev pub missing_file : Token
  missing_file = record {
    path = none;
    mime_id = 0;
    state = utf8 (files.dumps_compact (reason group (codes "missing")));
  }

  abbrev pub found_file : Text → ℕ → Option FileStat → Token
  found_file path mime_id none = missing_file
  found_file path mime_id (some s) =
      if not (files.is_file path) then no_file (codes "not-file") else record {
        path = some path;
        mime_id = mime_id;
        state = utf8 (files.dumps_compact (file_state group s));
      }

  abbrev pub resolved_file : Text → Option Text → Token
  resolved_file root none = missing_file
  resolved_file root (some path) =
      if not (files.is_inside root path)
      then missing_file
      else if mime_id_by_suffix (files.suffix path) == 0
      then no_file (codes "unsupported")
      else found_file path (mime_id_by_suffix (files.suffix path)) (files.stat path)

  abbrev pub rooted_file : Option Text → Token
  rooted_file none = no_file (codes "unknown-source")
  rooted_file (some root) =
      let relative = with_slashes group.filename in
      if files.is_absolute relative || has_dots (files.parts relative)
      then no_file (codes "unsafe-path")
      else resolved_file root (files.resolve root relative)

-- `source_roots.get(group.source)`
abbrev pub SourceRoots : Type 0
SourceRoots = Text → Option Text

unfoldable pub source_state_token : Files → SourceRoots → AudioGroup → Token
unfolding has_dots mime_id_by_suffix
source_state_token files source_roots group = rooted_file files group (source_roots group.source)

abbrev pub unread : AudioGroup → Bytes → ReadResult
unread group source_state = record {
  group = group;
  content = none;
  digest = none;
  mime_id = 0;
  source_state = source_state;
}

-- the recording, and the token once it is read
abbrev pub read_content : (Bytes → Bytes) → AudioGroup → Token → Token → Option Bytes → ReadResult
read_content blake2b group before after none = unread group before.state
read_content blake2b group before after (some content) =
    if length content == 0 || ltb (64 * 1024 * 1024) (length content)
    then unread group before.state
    else if not (text_eq after.state before.state)
    then unread group before.state
    else record {
      group = group;
      content = some content;
      digest = some (blake2b content);
      mime_id = before.mime_id;
      source_state = before.state;
    }

abbrev pub read_path :
    (Bytes → Bytes) → Files → AudioGroup → Token → Token → Option Text → ReadResult
read_path blake2b files group before after none = unread group before.state
read_path blake2b files group before after (some path) =
    read_content blake2b group before after (files.read_bytes path)

-- `_read_group`: the files may be others after the recording was read
unfoldable pub read_group : (Bytes → Bytes) → Files → Files → SourceRoots → AudioGroup → ReadResult
read_group blake2b files files_after source_roots group =
    let before = source_state_token files source_roots group in
    let after = source_state_token files_after source_roots group in
    read_path blake2b files group before after before.path
