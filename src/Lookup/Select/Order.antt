-- ===== src/Lookup/Select/Order.antt =====
-- `_select_rows` keeps the rows that the request admits and puts them in the request's order.
use Prim.Native.Nat.{compare, Ordering}
use yomitan_audio_fast.Prelude.{
  ℕ, suc, ◌+◌, ◌≡◌, inl, inr, refl, true, false, List, [], ◌∷◌, Option, none, some, ap,
  if◌then◌else◌, filter, is_some, length, arith, All, Bool-cases, ◌||◌,
}
use yomitan_audio_fast.Prelude.Int.{ℤ, pos, negsuc}
use yomitan_audio_fast.Prelude.Order.{
  nat_ord, bool_ord, int_ord, pair_ord, list_ord, list_cmp, list_cmp-flip, pair_cmp,
}
use yomitan_audio_fast.Prelude.Text.{Text, contains, text_eq, text_eq_iff}
use yomitan_audio_fast.Dict
use yomitan_audio_fast.Dict.{Dict}
use yomitan_audio_fast.Dict.Laws.{get-setdefault}
use yomitan_audio_fast.Sort.{before, sort_by}
use yomitan_audio_fast.Sort.Ordered.{IsSorted, sort_by-IsSorted, sort_by-perm, sort_by-All}
use yomitan_audio_fast.Lookup.{Row, LookupRequest}
use yomitan_audio_fast.Lookup.Rank.{ranks_setdefault}
use yomitan_audio_fast.Lookup.Select.{
  no_users, has_speaker, is_selected, reading_text, speaker_rank, request_key, select_rows,
}
use yomitan_audio_fast.Lookup.Select.Preferences.{
  position, speaker_place, reading_before, may_precede, InOrder, IsAdmitted, IsSelection,
  contains_of_mem, speaker_exact, is_selected_exact,
}

get-ranks_setdefault_of_some :
    (x : Text) (rank v : ℕ) (names : List Text) (d : Dict ℕ)
    → Dict.get x d ≡ some v
    → Dict.get x (ranks_setdefault rank names d) ≡ some v
unfolding ranks_setdefault
get-ranks_setdefault_of_some x rank v [] d h = h
get-ranks_setdefault_of_some x rank v (y ∷ ys) d h =
    get-ranks_setdefault_of_some x (suc rank) v ys (Dict.setdefault y rank d)
      (elim (Bool-cases (text_eq y x)) [
        | inl e ↦ rw (get-setdefault y x rank d, e, (text_eq_iff y x).0 e, h) refl
        | inr e ↦ rw (get-setdefault y x rank d, e) h
      ])

get-ranks_setdefault :
    (x : Text) (rank : ℕ) (names : List Text) (d : Dict ℕ)
    → Dict.get x d ≡ none
    → contains x names ≡ true
    → Dict.get x (ranks_setdefault rank names d) ≡ some (rank + position x names)
unfolding ranks_setdefault contains
get-ranks_setdefault x rank [] d h c = cc
get-ranks_setdefault x rank (y ∷ ys) d h c = elim (Bool-cases (text_eq y x)) [
  | inl e ↦
      get-ranks_setdefault_of_some x (suc rank) (rank + position x (y ∷ ys)) ys
        (Dict.setdefault y rank d) (ground (arith, get-setdefault y x rank d, text_eq_iff y x))
  | inr e ↦ ground (
    arith,
    get-ranks_setdefault x (suc rank) ys (Dict.setdefault y rank d),
    get-setdefault y x rank d,
    text_eq_iff y x,
  )
]

-- the ranks that the sort key reads are the positions
get_or-ranks_setdefault :
    (x : Text) (default : ℕ) (names : List Text)
    → contains x names ≡ true
    → Dict.get_or x default (ranks_setdefault 0 names []) ≡ position x names
get_or-ranks_setdefault x default names c =
    rw (Dict.get_or, get-ranks_setdefault x 0 names [] (unfold Dict.get in refl) c) (omega arith)

source_rank_lem :
    (request : LookupRequest) (row : Row)
    → IsAdmitted request row
    → let ranks = ranks_setdefault 0 request.sources [] in
      Dict.get_or row.source (length ranks) ranks ≡ position row.source request.sources
source_rank_lem request row a =
    get_or-ranks_setdefault row.source _ request.sources
      (contains_of_mem row.source request.sources a.source)

-- a speaker's rank as an integer
abbrev placed_rank : List Text → Option Text → ℤ
placed_rank users none = negsuc 0
placed_rank users (some speaker) = pos (position speaker users)

speaker_rank_lem :
    (users : List Text) (speaker : Option Text)
    → (no_users users || has_speaker users speaker) ≡ true
    → speaker_rank (ranks_setdefault 0 users []) speaker ≡ placed_rank users speaker
speaker_rank_lem users none h = refl
speaker_rank_lem [] (some s) h = (unfold ranks_setdefault Dict.get in refl)
speaker_rank_lem (u ∷ us) (some s) h = ap pos (get_or-ranks_setdefault s _ (u ∷ us) h)

place_cmp :
    (users : List Text) (a b : Option Text)
    → int_ord.cmp (placed_rank users a) (placed_rank users b)
      ≡ compare (speaker_place users a) (speaker_place users b)
place_cmp users none none = refl
place_cmp users none (some b) = ground arith
place_cmp users (some a) none = ground arith
place_cmp users (some a) (some b) = ground arith

reading_cmp :
    (a b : Option Text)
    → pair_cmp (is_some b, reading_text b) (is_some a, reading_text a) ≡ (
        if reading_before a b
        then Ordering.gt
        else if reading_before b a
        then Ordering.lt
        else Ordering.eq)
unfolding pair_cmp
reading_cmp none none = (unfold list_cmp in refl)
reading_cmp none (some b) = refl
reading_cmp (some a) none = refl
reading_cmp (some a) (some b) = ground (arith, list_cmp-flip a b)

-- A row that the sort leaves before another one may precede it.
may_precede_of_before :
    (request : LookupRequest) (a b : Row)
    → IsAdmitted request a
    → IsAdmitted request b
    → before (request_key request) b a ≡ false
    → may_precede request a b ≡ true
unfolding pair_cmp
may_precede_of_before request a b p q h = ground (
  arith,
  source_rank_lem request a p,
  source_rank_lem request b q,
  speaker_rank_lem request.users a.speaker ((speaker_exact request.users a.speaker).1 p.speaker),
  speaker_rank_lem request.users b.speaker ((speaker_exact request.users b.speaker).1 q.speaker),
  place_cmp request.users b.speaker a.speaker,
  reading_cmp a.reading b.reading,
)

All-may_precede :
    (request : LookupRequest) (row : Row) (rows : List Row)
    → IsAdmitted request row
    → All (IsAdmitted request) rows
    → All (λ later. before (request_key request) later row ≡ false) rows
    → All (λ later. may_precede request row later ≡ true) rows
All-may_precede request row [] a admitted sorted = tt
All-may_precede request row (later ∷ rows) a admitted sorted = (
  may_precede_of_before request row later a admitted.0 sorted.0,
  All-may_precede request row rows a admitted.1 sorted.1,
)

IsSorted-InOrder :
    (request : LookupRequest) (rows : List Row)
    → All (IsAdmitted request) rows
    → IsSorted (request_key request) rows
    → InOrder request rows
IsSorted-InOrder request [] admitted sorted = tt
IsSorted-InOrder request (row ∷ rows) admitted sorted = (
  All-may_precede request row rows admitted.0 admitted.1 sorted.0,
  IsSorted-InOrder request rows admitted.1 sorted.1,
)

filter-All :
    (request : LookupRequest) (rows : List Row)
    → All (IsAdmitted request) (filter (is_selected request.sources request.users) rows)
unfolding filter
filter-All request [] = tt
filter-All request (row ∷ rows) =
    elim (Bool-cases (is_selected request.sources request.users row)) [
      | inl e ↦ rw e ((is_selected_exact request row).0 e, filter-All request rows)
      | inr e ↦ rw e (filter-All request rows)
    ]

-- The rows of a selection are those that the request admits: of a source that it asks for and, where it asks
-- for speakers, of one of them or of none; each as often as among the rows. They are in the order of the
-- request: by the first place of the source in it, the rows without a speaker first and then by the first
-- place of the speaker, without a reading first and then by reading, then by id.
pub select_rows-IsSelection :
    (rows : List Row) (request : LookupRequest)
    → IsSelection request rows (select_rows rows request)
unfolding select_rows
select_rows-IsSelection rows request =
    let admitted = filter (is_selected request.sources request.users) rows in
    record {
      test = is_selected request.sources request.users;
      exact = is_selected_exact request;
      kept = sort_by-perm (request_key request) admitted;
      in_order =
          IsSorted-InOrder request (sort_by (request_key request) admitted)
            (sort_by-All (request_key request) (IsAdmitted request) admitted
              (filter-All request rows))
            (sort_by-IsSorted (request_key request) admitted);
    }
