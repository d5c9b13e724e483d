-- ===== src/Server/Resource.antt =====
-- Recordings by their address (anki-addon/server.py: `_legacy_audio`, `_serve_audio_url`). The store's
-- operations are those of Store.
pub mod Framed
use yomitan_audio_fast.Prelude.{
  ℕ, List, [], ◌∷◌, ◌++◌, Option, none, some, Bool, true, false, ◌==◌, ◌&&◌, ◌||◌, not,
  if◌then◌else◌,
}
use yomitan_audio_fast.Prelude.Text.{Text, codes, text_eq}
use yomitan_audio_fast.Bytes.{Bytes}
use yomitan_audio_fast.Dict
use yomitan_audio_fast.Encoding.Decimal.{decimal, int_of_text}
use yomitan_audio_fast.Encoding.Percent.{utf8}
use yomitan_audio_fast.Pack.{AudioPack}
use yomitan_audio_fast.Lookup.{LookupRequest, FirstAudioRequest}
use yomitan_audio_fast.Store.Payload.{with_slashes}
use yomitan_audio_fast.Store.State.{StoreState}
use yomitan_audio_fast.Store.Lookups.{lookup, lookup_first, candidates_payload, best_audio_url}
use yomitan_audio_fast.Store.Paths.{packed_target_for_legacy_path}
use yomitan_audio_fast.Server.Response.{Response, payload, error, json_type, no_store}
use yomitan_audio_fast.Server.Audio.{RequestHeaders, packed_audio, serve_file}
use yomitan_audio_fast.Server.Path.{
  mime_type_by_suffix, has_nul, has_parent, lstrip_slash, split_slashes, split_first, packed_parts,
}
use yomitan_audio_fast.Server.Query.{
  Values, Parsed, value_error, parsed, and_then, parse_lookup, parse_first_lookup,
}

-- What urllib, pathlib and os answer, what the store leases for a version, and the text of `info()`.
-- `urlsplit` gives the path and the query, or raises ValueError, here `none`; `leased` gives the pack, if
-- there is one, or raises what the opening of the pack's files raised, here `none`; an OSError in `info()`
-- is `none`. `resolve root relative` is `(root / relative).resolve(strict=True)`, and `content path` what
-- `stat` and `open` find there, the modification time and the bytes; `none` is an OSError.
pub record Environment : Type 0 where
  pub urlsplit : Text → Option (Text × Text)
  pub unquote : Text → Text
  pub parse_qs : Text → Parsed Values
  pub is_absolute : Text → Bool
  pub parts : Text → List Text
  pub media_root : Text → Option Text
  pub resolve : Text → Text → Option Text
  pub is_inside : Text → Text → Bool
  pub suffix : Text → Text
  pub is_file : Text → Bool
  pub content : Text → Option (ℕ × Bytes)
  pub leased : Text → Option (Option AudioPack)
  pub info : Option Bytes
  pub version : Text

-- A handler answers, or returns `False`, or an exception leaves it: the store is closed, an address is not
-- to be split, or a pack or `info()` raises.
pub data Reply : Type 0 where
  served : Response → Reply
  passed : Reply
  raised : Reply

abbrev pub reply_of : Option Response → Reply
reply_of none = passed
reply_of (some r) = served r

abbrev pub or_reply : Reply → Reply → Reply
or_reply (served r) next = served r
or_reply passed next = next
or_reply raised next = raised

abbrev pub or_hour : Option Text → Option Text
or_hour none = some (codes "public, max-age=3600")
or_hour (some cache_control) = some cache_control

module _ (env : Environment) (headers : RequestHeaders) (head_only : Bool) where
  -- the rest of `_packed_audio`, with what the lease gave
  abbrev pub lent_reply : Text → Text → Option Text → Option (Option AudioPack) → Reply
  lent_reply version audio_id_text cache_control none = raised
  lent_reply version audio_id_text cache_control (some pack) =
      reply_of (packed_audio (λ asked. pack) headers version audio_id_text head_only cache_control)

  -- `_packed_audio`, whose lease raises on a closed store
  abbrev pub packed_reply : StoreState → Text → Text → Option Text → Reply
  packed_reply s version audio_id_text cache_control = elim (int_of_text audio_id_text) [
    | none ↦ passed
    | some audio_id ↦
        if s.closed
        then raised
        else lent_reply version audio_id_text cache_control (env.leased version)
  ]

  abbrev pub target_reply : StoreState → Option Text → Option (Option (Text × ℕ)) → Reply
  target_reply s cache_control none = raised
  target_reply s cache_control (some none) = passed
  target_reply s cache_control (some (some (version, audio_id))) =
      packed_reply s version (decimal audio_id) (or_hour cache_control)

  -- the file, if its path is allowed, and its type is known
  abbrev pub content_at : Text → Option Text → Option (Text × (ℕ × Bytes))
  content_at path none = none
  content_at path (some mime_type) =
      if not (env.is_file path)
      then none
      else elim (env.content path) [ none ↦ none | some found ↦ some (mime_type, found) ]

  abbrev pub file_in : Text → Option Text → Option (Text × (ℕ × Bytes))
  file_in root none = none
  file_in root (some path) =
      if not (env.is_inside root path)
      then none
      else content_at path (mime_type_by_suffix (env.suffix path))

  abbrev pub find_file : Option Text → Text → Option (Text × (ℕ × Bytes))
  find_file none relative = none
  find_file (some root) relative = file_in root (env.resolve root relative)

  abbrev pub file_reply :
      StoreState → Text → Text → Option Text → Option (Text × (ℕ × Bytes)) → Reply
  file_reply s source_id filename cache_control (some (mime_type, (mtime_ns, bytes))) =
      served (serve_file headers head_only mime_type mtime_ns bytes cache_control)
  file_reply s source_id filename cache_control none =
      target_reply s cache_control (packed_target_for_legacy_path s source_id filename)

  abbrev pub named_reply : StoreState → Text → Text → Option Text → Reply
  named_reply s source_id filename cache_control =
      let relative = with_slashes filename in
      if has_nul filename
      then passed
      else if env.is_absolute relative || has_parent (env.parts relative)
      then passed
      else file_reply s source_id filename cache_control
          (find_file (env.media_root source_id) relative)

  -- `_legacy_audio`
  unfoldable pub legacy_audio : StoreState → Text → Text → Option Text → Reply
  legacy_audio s source_id encoded_filename cache_control =
      elim (Dict.get (env.unquote source_id) s.site.sources) [
        | none ↦ passed
        | some source ↦
            named_reply s (env.unquote source_id) (env.unquote encoded_filename) cache_control
      ]

  abbrev pub reply_to_parts : StoreState → Option Text → Option (Text × Text) → Reply
  reply_to_parts s cache_control none = passed
  reply_to_parts s cache_control (some (source_id, filename)) =
      legacy_audio s source_id filename cache_control

  -- a path without the slashes before it
  unfoldable pub path_reply : StoreState → Text → Option Text → Reply
  path_reply s path cache_control = elim (packed_parts (split_slashes path)) [
    | some (version, audio_id) ↦ packed_reply s version audio_id cache_control
    | none ↦ reply_to_parts s cache_control (split_first path)
  ]

  abbrev pub split_reply : StoreState → Option Text → Option (Text × Text) → Reply
  split_reply s cache_control none = raised
  split_reply s cache_control (some (path, query)) = path_reply s (lstrip_slash path) cache_control

  -- `_serve_audio_url`
  abbrev pub serve_audio_url : StoreState → Text → Option Text → Reply
  serve_audio_url s url cache_control = split_reply s cache_control (env.urlsplit url)

  -- a path that may name a recording
  unfoldable pub named_audio : StoreState → Text → Reply
  named_audio s path =
      let stripped = lstrip_slash path in
      or_reply
        (elim (packed_parts (split_slashes stripped)) [
          | none ↦ passed
          | some (version, audio_id) ↦ packed_reply s version audio_id none
        ])
        (reply_to_parts s none (split_first stripped))
