-- ===== src/Server/Query.antt =====
-- The lookup requests of `LocalAudioHandler` (anki-addon/server.py: `_parse_lookup_terms`, `_parse_lookup`,
-- `_parse_first_lookup`), from the dictionary that `parse_qs` makes of the query. Its lists are not empty:
-- a first value and the others.
pub mod Bounds
use yomitan_audio_fast.Prelude.{
  ℕ, List, [], ◌∷◌, ◌++◌, Option, none, some, Bool, length, ltb, ◌||◌, ◌==◌, if◌then◌else◌, map,
}
use yomitan_audio_fast.Prelude.Text.{Text, codes}
use yomitan_audio_fast.Dict
use yomitan_audio_fast.Dict.{Dict}
use yomitan_audio_fast.Encoding.Decimal.{strip}
use yomitan_audio_fast.Lookup.{LookupRequest, FirstAudioRequest}
use yomitan_audio_fast.Server.Audio.{split_commas, text_or_empty}

abbrev pub Values : Type 0
Values = Dict (Text × List Text)

-- what a `ValueError` says, or what was read
pub data Parsed {ℓ} (A : Type ℓ) : Type ℓ where
  value_error : Text → Parsed A
  parsed : A → Parsed A

abbrev pub max_term_length : ℕ
max_term_length = 512

abbrev pub max_filter_values : ℕ
max_filter_values = 128

abbrev pub and_then {ℓ} : {A B : Type ℓ} → Parsed A → (A → Parsed B) → Parsed B
and_then (value_error message) f = value_error message
and_then (parsed a) f = f a

-- values[name][0]
abbrev pub first_value : Values → Text → Option Text
first_value values name = elim (Dict.get name values) [ none ↦ none | some v ↦ some v.0 ]

abbrev pub expression_of : Option Text → Option Text → Parsed Text
expression_of (some term) expression = parsed term
expression_of none (some expression) = parsed expression
expression_of none none =
    value_error (codes "add a 'term' (or 'expression') query parameter naming the word to look up")

abbrev pub checked_expression : Text → Parsed Text
checked_expression [] = value_error (codes "the 'term' is empty; provide the word to look up")
checked_expression (c ∷ cs) =
    if ltb max_term_length (length (c ∷ cs))
    then value_error (codes "the 'term' is too long; use at most 512 characters")
    else parsed (c ∷ cs)

-- An empty reading is none.
abbrev pub checked_reading : Option Text → Parsed (Option Text)
checked_reading none = parsed none
checked_reading (some []) = parsed none
checked_reading (some (c ∷ cs)) =
    if ltb max_term_length (length (c ∷ cs))
    then value_error (codes "the 'reading' is too long; use at most 512 characters")
    else parsed (some (c ∷ cs))

-- `_parse_lookup_terms`
unfoldable pub parse_lookup_terms : Values → Parsed (Text × Option Text)
parse_lookup_terms values =
    and_then
      (expression_of (first_value values (codes "term")) (first_value values (codes "expression")))
      (λ term. and_then (checked_expression term) (λ expression.
        and_then (checked_reading (first_value values (codes "reading")))
          (λ reading. parsed (expression, reading))))

-- the pieces that are not empty
unfoldable pub nonempty : List Text → List Text
nonempty [] = []
nonempty ([] ∷ texts) = nonempty texts
nonempty ((c ∷ cs) ∷ texts) = (c ∷ cs) ∷ nonempty texts

-- tuple(value.strip() for value in text.split(",") if value.strip())
abbrev pub filter_values : Text → List Text
filter_values text = nonempty (map strip (split_commas text))

-- An absent filter, or one of no value, is every configured source.
abbrev pub or_all : List Text → List Text → List Text
or_all source_ids [] = source_ids
or_all source_ids (source ∷ sources) = source ∷ sources

abbrev pub requested_sources : List Text → Option Text → List Text
requested_sources source_ids none = source_ids
requested_sources source_ids (some text) = or_all source_ids (filter_values text)

abbrev pub bounded_request : Text → Option Text → List Text → List Text → Parsed LookupRequest
bounded_request expression reading sources users =
    if ltb max_filter_values (length sources) || ltb max_filter_values (length users)
    then value_error (codes "too many 'sources' or 'user' filters; list at most 128 of each")
    else parsed
        (record { expression = expression; reading = reading; sources = sources; users = users })

-- `_parse_lookup`, with the configured sources
unfoldable pub parse_lookup : List Text → Values → Parsed LookupRequest
unfolding parse_lookup_terms nonempty
parse_lookup source_ids values = and_then (parse_lookup_terms values) (λ terms.
    bounded_request terms.0 terms.1
      (requested_sources source_ids (first_value values (codes "sources")))
      (filter_values (text_or_empty (first_value values (codes "user")))))

-- `_parse_first_lookup`
unfoldable pub parse_first_lookup : Values → Parsed FirstAudioRequest
unfolding parse_lookup_terms
parse_first_lookup values =
    and_then (parse_lookup_terms values)
      (λ terms. parsed (record { expression = terms.0; reading = terms.1 }))
