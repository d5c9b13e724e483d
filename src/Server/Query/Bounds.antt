-- ===== src/Server/Query/Bounds.antt =====
-- Every lookup request that is read is within the bounds.
use yomitan_audio_fast.Prelude.{
  ◌≤◌, ◌<◌, ◌≡◌, List, [], ◌∷◌, Option, none, some, length, arith, All, ltb, ◌||◌, Bool-cases, inl,
  inr, map, refl, ◌⊎◌,
}
use yomitan_audio_fast.Prelude.Text.{Text, codes}
use yomitan_audio_fast.Encoding.Decimal.{strip}
use yomitan_audio_fast.Lookup.{LookupRequest}
use yomitan_audio_fast.Server.Audio.{split_commas, text_or_empty}
use yomitan_audio_fast.Server.Query.{
  Values, Parsed, value_error, parsed, and_then, first_value, expression_of, checked_expression,
  checked_reading, parse_lookup_terms, nonempty, filter_values, requested_sources, or_all,
  bounded_request, parse_lookup, max_term_length, max_filter_values,
}

-- not empty and of at most 512 characters
abbrev pub IsTerm : Text → Type 0
IsTerm text = (0 < length text) × (length text ≤ max_term_length)

abbrev pub IsReading : Option Text → Type 0
IsReading none = Unit
IsReading (some text) = IsTerm text

pub record IsBounded (source_ids : List Text) (r : LookupRequest) : Type 0 where
  pub expression : IsTerm r.expression
  pub reading : IsReading r.reading
  pub sources : length r.sources ≤ max_filter_values
  pub users : length r.users ≤ max_filter_values
  pub named : All (λ user. 0 < length user) r.users
  pub chosen : (r.sources ≡ source_ids) ⊎ All (λ source. 0 < length source) r.sources

abbrev OnParsed {ℓ} : {A : Type ℓ} → (A → Type 0) → Parsed A → Type 0
OnParsed P (value_error message) = Unit
OnParsed P (parsed a) = P a

and_then-OnParsed {ℓ} :
    {A B : Type ℓ} (P : A → Type 0) (Q : B → Type 0) (a : Parsed A) (f : A → Parsed B)
    → OnParsed P a
    → ((x : A) → P x → OnParsed Q (f x))
    → OnParsed Q (and_then a f)
and_then-OnParsed P Q (value_error message) f h k = tt
and_then-OnParsed P Q (parsed a) f h k = k a h

checked_expression-IsTerm : (text : Text) → OnParsed IsTerm (checked_expression text)
checked_expression-IsTerm [] = tt
checked_expression-IsTerm (c ∷ cs) = elim (Bool-cases (ltb max_term_length (length (c ∷ cs)))) [
  | inl e ↦ rw e tt
  | inr e ↦ rw e (omega arith, ground arith)
]

checked_reading-IsReading : (reading : Option Text) → OnParsed IsReading (checked_reading reading)
checked_reading-IsReading none = tt
checked_reading-IsReading (some []) = tt
checked_reading-IsReading (some (c ∷ cs)) =
    elim (Bool-cases (ltb max_term_length (length (c ∷ cs)))) [
      | inl e ↦ rw e tt
      | inr e ↦ rw e (omega arith, ground arith)
    ]

nonempty_lem : (texts : List Text) → All (λ text. 0 < length text) (nonempty texts)
unfolding nonempty
nonempty_lem [] = tt
nonempty_lem ([] ∷ texts) = nonempty_lem texts
nonempty_lem ((c ∷ cs) ∷ texts) = (omega arith, nonempty_lem texts)

abbrev AreTerms : Text × Option Text → Type 0
AreTerms terms = IsTerm terms.0 × IsReading terms.1

parse_lookup_terms-AreTerms : (values : Values) → OnParsed AreTerms (parse_lookup_terms values)
unfolding parse_lookup_terms
parse_lookup_terms-AreTerms values =
    and_then-OnParsed (λ t. Unit) AreTerms
      (expression_of (first_value values (codes "term")) (first_value values (codes "expression")))
      _ (any_term (first_value values (codes "term")) (first_value values (codes "expression")))
      (λ term u.
        and_then-OnParsed IsTerm AreTerms (checked_expression term) _
          (checked_expression-IsTerm term)
          (λ expression e.
            and_then-OnParsed IsReading AreTerms
              (checked_reading (first_value values (codes "reading"))) _
              (checked_reading-IsReading (first_value values (codes "reading")))
              (λ reading r. (e, r))))
  where
    any_term : (a b : Option Text) → OnParsed {A = Text} (λ t. Unit) (expression_of a b)
    any_term (some a) b = tt
    any_term none (some b) = tt
    any_term none none = tt

requested_sources_chosen :
    (source_ids : List Text) (given : Option Text)
    → (requested_sources source_ids given ≡ source_ids)
      ⊎ All (λ source. 0 < length source) (requested_sources source_ids given)
requested_sources_chosen source_ids none = inl refl
requested_sources_chosen source_ids (some text) =
    or_all_chosen (filter_values text) (nonempty_lem (map strip (split_commas text)))
  where
    or_all_chosen :
        (named : List Text)
        → All (λ source. 0 < length source) named
        → (or_all source_ids named ≡ source_ids)
          ⊎ All (λ source. 0 < length source) (or_all source_ids named)
    or_all_chosen [] h = inl refl
    or_all_chosen (x ∷ xs) h = inr h

bounded_request-IsBounded :
    (source_ids : List Text) (expression : Text) (reading : Option Text) (sources users : List Text)
    → IsTerm expression
    → IsReading reading
    → All (λ user. 0 < length user) users
    → (sources ≡ source_ids) ⊎ All (λ source. 0 < length source) sources
    → OnParsed (IsBounded source_ids) (bounded_request expression reading sources users)
bounded_request-IsBounded source_ids expression reading sources users e r u chosen =
    elim (Bool-cases
      (ltb max_filter_values (length sources) || ltb max_filter_values (length users))) [
        | inl f ↦ rw f tt
        | inr f ↦ rw f (record {
          expression = e;
          reading = r;
          sources = ground arith;
          users = ground arith;
          named = u;
          chosen = chosen;
        })
      ]

parse_lookup-OnParsed :
    (source_ids : List Text) (values : Values)
    → OnParsed (IsBounded source_ids) (parse_lookup source_ids values)
unfolding parse_lookup
parse_lookup-OnParsed source_ids values =
    and_then-OnParsed AreTerms (IsBounded source_ids) (parse_lookup_terms values) _
      (parse_lookup_terms-AreTerms values)
      (λ terms h.
        bounded_request-IsBounded source_ids terms.0 terms.1
          (requested_sources source_ids (first_value values (codes "sources")))
          (filter_values (text_or_empty (first_value values (codes "user")))) h.0 h.1
          (nonempty_lem
            (map strip (split_commas (text_or_empty (first_value values (codes "user"))))))
          (requested_sources_chosen source_ids (first_value values (codes "sources"))))

-- A request that is read from any query has a term and, if any, a reading of 1 to 512 characters, at most
-- 128 sources and at most 128 users. No user is the empty text, and no source either, unless the sources are
-- all the configured ones.
pub parse_lookup-IsBounded :
    (source_ids : List Text) (values : Values) {r : LookupRequest}
    → parse_lookup source_ids values ≡ parsed r
    → IsBounded source_ids r
parse_lookup-IsBounded source_ids values {r} e = rw e at (parse_lookup-OnParsed source_ids values)
