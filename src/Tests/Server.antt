-- ===== src/Tests/Server.antt =====
-- Requests to the server: a recording of four bytes, and the query of a lookup.
use yomitan_audio_fast.Prelude.{◌≡◌, refl, false, [], ◌∷◌, Option, none}
use yomitan_audio_fast.Prelude.Text.{Text, codes, text_eq}
use yomitan_audio_fast.Dict
use yomitan_audio_fast.Encoding.Decimal.{strip, strip_left, strip_right, is_ascii, has_separator}
use yomitan_audio_fast.Pack.{AudioPack}
use yomitan_audio_fast.Lookup.{LookupRequest}
use yomitan_audio_fast.Server.Audio.{RequestHeaders, packed_audio, serve_packed, split_commas}
use yomitan_audio_fast.Server.Audio.Framing.{IsFramed, packed_audio-IsFramed}
use mathlib.Core.Option.{some}
use yomitan_audio_fast.Prelude.Int.{pos}
use yomitan_audio_fast.Encoding.Decimal.{int_of_text, signed_value, digits_value}
use yomitan_audio_fast.Tests.Pack.{small, audio, get-small}
use yomitan_audio_fast.Server.Query.{Values, parsed, parse_lookup, parse_lookup_terms, nonempty}
use yomitan_audio_fast.Server.Query.Bounds.{IsBounded, parse_lookup-IsBounded}

abbrev plain : RequestHeaders
plain = record { range = none; if_none_match = none }

abbrev values : Values
values = (codes "term", (codes "read", [])) ∷ (codes "user", (codes "skent, ", [])) ∷ []

abbrev request : LookupRequest
request = record {
  expression = codes "read";
  reading = none;
  sources = codes "nhk16" ∷ [];
  users = codes "skent" ∷ [];
}

parse_values : parse_lookup (codes "nhk16" ∷ []) values ≡ parsed request
unfolding parse_lookup parse_lookup_terms nonempty split_commas strip strip_left strip_right
    Dict.get text_eq
parse_values = refl

parse_lookup-IsBounded_example : IsBounded (codes "nhk16" ∷ []) request
parse_lookup-IsBounded_example =
    parse_lookup-IsBounded (codes "nhk16" ∷ []) values {r = request} parse_values

abbrev leased : Text → Option AudioPack
leased version = some small

one : int_of_text (codes "1") ≡ some (pos 1)
unfolding int_of_text signed_value digits_value strip strip_left strip_right is_ascii has_separator
one = refl

separator : int_of_text (0x1c ∷ codes "1") ≡ none
unfolding int_of_text is_ascii has_separator
separator = refl

get-audio :
    packed_audio leased plain (codes "v1") (codes "1") false none
    ≡ some (serve_packed plain false (codes "v1") none small audio)
unfolding packed_audio
get-audio = rw (packed_audio, one, get-small) refl

packed_audio-IsFramed_example : IsFramed (serve_packed plain false (codes "v1") none small audio)
packed_audio-IsFramed_example =
    packed_audio-IsFramed leased plain (codes "v1") (codes "1") none
      {r = serve_packed plain false (codes "v1") none small audio} get-audio
