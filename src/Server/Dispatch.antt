-- ===== src/Server/Dispatch.antt =====
-- The choice of the answer by the path of a request (anki-addon/server.py: `_dispatch`, `do_GET`, `do_HEAD`,
-- `do_OPTIONS`). No change of the store falls between two of its operations in a request.
pub mod Answers
use yomitan_audio_fast.Prelude.{
  ℕ, List, [], ◌∷◌, ◌++◌, Option, none, some, Bool, true, false, ◌==◌, ◌&&◌, ◌||◌, not,
  if◌then◌else◌,
}
use yomitan_audio_fast.Prelude.Text.{Text, codes, text_eq}
use yomitan_audio_fast.Bytes.{Bytes}
use yomitan_audio_fast.Dict
use yomitan_audio_fast.Encoding.Decimal.{decimal, int_of_text}
use yomitan_audio_fast.Encoding.Percent.{utf8}
use yomitan_audio_fast.Pack.{AudioPack}
use yomitan_audio_fast.Lookup.{LookupRequest, FirstAudioRequest}
use yomitan_audio_fast.Store.Payload.{with_slashes}
use yomitan_audio_fast.Store.State.{StoreState}
use yomitan_audio_fast.Store.Lookups.{lookup, lookup_first, candidates_payload, best_audio_url}
use yomitan_audio_fast.Store.Paths.{packed_target_for_legacy_path}
use yomitan_audio_fast.Server.Response.{Response, payload, error, json_type, no_store}
use yomitan_audio_fast.Server.Audio.{RequestHeaders, packed_audio, serve_file}
use yomitan_audio_fast.Server.Path.{
  mime_type_by_suffix, has_nul, has_parent, lstrip_slash, split_slashes, split_first, packed_parts,
}
use yomitan_audio_fast.Server.Query.{
  Values, Parsed, value_error, parsed, and_then, parse_lookup, parse_first_lookup,
}
use yomitan_audio_fast.Server.Resource.{
  Environment, Reply, served, passed, raised, or_reply, serve_audio_url, named_audio,
}

abbrev pub json_answer : Bool → Bytes → Response
json_answer head_only bytes = payload 200 bytes json_type head_only no_store

-- the answer with what the store gave, which raises if it is closed
abbrev pub answer : Bool → Option Bytes × StoreState → Reply × StoreState
answer head_only (some bytes, s) = (served (json_answer head_only bytes), s)
answer head_only (none, s) = (raised, s)

abbrev pub on_parsed {ℓ} :
    {A : Type ℓ} → Bool → StoreState → Parsed A → (A → Reply × StoreState) → Reply × StoreState
on_parsed head_only s (value_error message) f = (served (error 400 message head_only), s)
on_parsed head_only s (parsed request) f = f request

abbrev pub no_audio : Bool → Response
no_audio = error 404 (
    codes "no audio was found for that term and reading; "
    ++ codes "try a different reading or check your configured sources")

abbrev pub unknown_path : Bool → Response
unknown_path = error 404 (
    codes "unknown request path; use / with a 'term' query, or "
    ++ codes "/v1/play, /v1/candidates, /v1/first, /v1/info, or /healthz")

abbrev pub info_reply : Bool → Option Bytes → Reply
info_reply head_only none = raised
info_reply head_only (some bytes) = served (json_answer head_only bytes)

-- the conditions of `_dispatch` on the path, in their order
pub data Route : Type 0 where
  home : Route
  health : Route
  info : Route
  first : Route
  play : Route
  candidates : Route
  resource : Route

unfoldable pub route : Text → Text → Route
route path query =
    if text_eq path (codes "/") && text_eq query []
    then home
    else if text_eq path (codes "/healthz")
    then health
    else if text_eq path (codes "/v1/info")
    then info
    else if text_eq path (codes "/v1/first")
    then first
    else if text_eq path (codes "/v1/play")
    then play
    else if text_eq path (codes "/v1/candidates")
    then candidates
    else resource

module _ (env : Environment) (headers : RequestHeaders) (head_only : Bool) where
  abbrev pub play_url : Option (Option Text) × StoreState → Reply × StoreState
  play_url (none, s) = (raised, s)
  play_url (some none, s) = (served (no_audio head_only), s)
  play_url (some (some url), s) = (
    or_reply (serve_audio_url env headers head_only s url (some (codes "no-store")))
        (served (no_audio head_only)),
    s,
  )

  abbrev pub search : StoreState → Text → Text → Reply × StoreState
  search s path query =
      if text_eq path (codes "/") && not (text_eq query [])
      then on_parsed head_only s
          (and_then (env.parse_qs query) (parse_lookup (Dict.keys s.site.sources)))
          (λ request. answer head_only (lookup s request))
      else (served (unknown_path head_only), s)

  abbrev pub or_search : StoreState → Text → Text → Reply → Reply × StoreState
  or_search s path query (served r) = (served r, s)
  or_search s path query raised = (raised, s)
  or_search s path query passed = search s path query

  unfoldable pub handle : StoreState → Text → Text → Route → Reply × StoreState
  handle s path query home = (
    served (
        payload 200 (utf8 (codes "Local Audio Server v" ++ env.version))
          (codes "text/plain; charset=utf-8") head_only no_store),
    s,
  )
  handle s path query health = (served (json_answer head_only (codes "{\"status\":\"ok\"}")), s)
  handle s path query info = if s.closed then (raised, s) else (info_reply head_only env.info, s)
  handle s path query first =
      on_parsed head_only s (and_then (env.parse_qs query) parse_first_lookup)
        (λ request. answer head_only (lookup_first s request))
  handle s path query play =
      on_parsed head_only s
        (and_then (env.parse_qs query) (parse_lookup (Dict.keys s.site.sources)))
        (λ request. play_url (best_audio_url s request))
  handle s path query candidates =
      on_parsed head_only s
        (and_then (env.parse_qs query) (parse_lookup (Dict.keys s.site.sources)))
        (λ request. answer head_only (candidates_payload s request))
  handle s path query resource = or_search s path query (named_audio env headers head_only s path)

  abbrev pub dispatch_split : StoreState → Option (Text × Text) → Reply × StoreState
  dispatch_split s none = (raised, s)
  dispatch_split s (some (path, query)) = handle s path query (route path query)

  -- `_dispatch`, for the target of a request; `do_GET` and `do_HEAD` are its two modes
  abbrev pub dispatch : StoreState → Text → Reply × StoreState
  dispatch s target = dispatch_split s (env.urlsplit target)

-- `do_OPTIONS`
abbrev pub options : Response
options = record {
  status = 204;
  content_type = some (codes "text/plain; charset=utf-8");
  content_length = some 0;
  extra =
      (codes "Access-Control-Allow-Methods", codes "GET, HEAD, OPTIONS")
      ∷ (codes "Access-Control-Allow-Headers", codes "Range, Content-Type, If-None-Match")
      ∷ (codes "Access-Control-Max-Age", codes "86400")
      ∷ [];
  body = [];
}
