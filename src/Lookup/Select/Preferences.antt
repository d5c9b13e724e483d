-- ===== src/Lookup/Select/Preferences.antt =====
-- What `_select_rows` selects and in which order, told without its rank dictionaries and its sort key.
use mathlib.Core.List.{Perm, Mem, mem-cons, mem-cons_self, mem-cons_of_mem, not-mem-nil}
use mathlib.Core.Logic.Or
use yomitan_audio_fast.Prelude.{
  ℕ, suc, ◌≡◌, ◌⊎◌, inl, inr, refl, true, false, List, [], ◌∷◌, Option, none, some, if◌then◌else◌,
  ltb, leb, Bool, filter, arith, All, Bool-cases, ◌||◌, ◌↔◌,
}
use yomitan_audio_fast.Prelude.Order.{
  nat_ord, bool_ord, int_ord, pair_ord, list_ord, list_cmp, is_lt,
}
use yomitan_audio_fast.Prelude.Text.{Text, contains, text_eq, text_eq_iff}
use yomitan_audio_fast.Lookup.{Row, LookupRequest}
use yomitan_audio_fast.Lookup.Select.{no_users, has_speaker, is_selected}

-- where a name first stands in a list
abbrev pub position : Text → List Text → ℕ
position x [] = 0
position x (y ∷ ys) = if text_eq y x then 0 else suc (position x ys)

-- A recording that names no speaker comes before those that do.
abbrev pub speaker_place : List Text → Option Text → ℕ
speaker_place users none = 0
speaker_place users (some speaker) = suc (position speaker users)

-- NULL before every reading, then by code points
abbrev pub reading_before : Option Text → Option Text → Bool
reading_before none none = false
reading_before none (some b) = true
reading_before (some a) none = false
reading_before (some a) (some b) = is_lt (list_cmp a b)

-- Sources in the order asked for, then speakers in the order asked for, then readings, then ids.
abbrev pub may_precede : LookupRequest → Row → Row → Bool
may_precede request a b =
    if ltb (position a.source request.sources) (position b.source request.sources)
    then true
    else if ltb (position b.source request.sources) (position a.source request.sources)
    then false
    else if ltb (speaker_place request.users a.speaker) (speaker_place request.users b.speaker)
    then true
    else if ltb (speaker_place request.users b.speaker) (speaker_place request.users a.speaker)
    then false
    else if reading_before a.reading b.reading
    then true
    else if reading_before b.reading a.reading
    then false
    else leb a.id b.id

-- each row before those after it
abbrev pub InOrder : LookupRequest → List Row → Type 0
InOrder request [] = Unit
InOrder request (row ∷ rows) =
    All (λ later. may_precede request row later ≡ true) rows × InOrder request rows

-- The source is asked for, and so is the speaker, if the row names one and the request any.
pub record IsAdmitted (request : LookupRequest) (row : Row) : Type 0 where
  pub source : Mem row.source request.sources
  pub speaker :
      (name : Text) → row.speaker ≡ some name → (request.users ≡ []) ⊎ Mem name request.users

-- The result holds the rows that are admitted, each as often as among the rows, in order.
pub record IsSelection (request : LookupRequest) (rows result : List Row) : Type 0 where
  pub test : Row → Bool
  pub exact : (row : Row) → (test row ≡ true) ↔ IsAdmitted request row
  pub kept : Perm result (filter test rows)
  pub in_order : InOrder request result

mem_of_contains : (x : Text) (names : List Text) → contains x names ≡ true → Mem x names
unfolding contains
mem_of_contains x [] h = cc
mem_of_contains x (y ∷ ys) h = elim (Bool-cases (text_eq y x)) [
  | inl e ↦ rw ((text_eq_iff y x).0 e) mem-cons_self
  | inr e ↦ mem-cons_of_mem y (mem_of_contains x ys (ground arith))
]

pub contains_of_mem : (x : Text) (names : List Text) → Mem x names → contains x names ≡ true
unfolding contains
contains_of_mem x [] m = absurd (not-mem-nil m)
contains_of_mem x (y ∷ ys) m =
    Or.elim (hlevel) (mem-cons.0 m) (λ e. ground (arith, text_eq_iff y x))
      (λ n. ground (arith, contains_of_mem x ys n))

-- the speaker's part of the filter
pub speaker_exact :
    (users : List Text) (speaker : Option Text)
    → ((no_users users || has_speaker users speaker) ≡ true)
      ↔ ((name : Text) → speaker ≡ some name → (users ≡ []) ⊎ Mem name users)
speaker_exact [] speaker = (λ h name e. inl refl, λ h. refl)
speaker_exact (u ∷ us) none = (λ h name e. absurd (cc), λ h. refl)
speaker_exact (u ∷ us) (some s) = (
  λ h name e. inr (mem_of_contains name (u ∷ us) (ground arith)),
  λ h. elim (h s refl) [ inl e ↦ absurd (cc) | inr m ↦ contains_of_mem s (u ∷ us) m ],
)

pub is_selected_exact :
    (request : LookupRequest) (row : Row)
    → (is_selected request.sources request.users row ≡ true) ↔ IsAdmitted request row
is_selected_exact request row = (
  λ h. record {
    source = mem_of_contains row.source request.sources (ground arith);
    speaker = (speaker_exact request.users row.speaker).0 (ground arith);
  },
  λ a. ground (
    arith,
    contains_of_mem row.source request.sources a.source,
    (speaker_exact request.users row.speaker).1 a.speaker,
  ),
)
