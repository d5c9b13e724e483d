-- ===== src/Lookup/Select.antt =====
-- `_select_rows`: the filter by source and user, and the sort by the request's preferences.
pub mod Contract
pub mod Preferences
pub mod Order
use yomitan_audio_fast.Prelude.{
  ℕ, true, false, List, [], ◌∷◌, Option, none, some, if◌then◌else◌, ◌||◌, ◌&&◌, Bool, filter,
  is_some,
}
use yomitan_audio_fast.Prelude.{length}
use yomitan_audio_fast.Prelude.Int.{ℤ, pos, negsuc}
use yomitan_audio_fast.Prelude.Order.{nat_ord, bool_ord, int_ord, pair_ord, list_ord}
use yomitan_audio_fast.Prelude.Text.{Text, contains}
use yomitan_audio_fast.Dict
use yomitan_audio_fast.Dict.{Dict}
use yomitan_audio_fast.Sort.{sort_by}
use yomitan_audio_fast.Lookup.{Row, LookupRequest}
use yomitan_audio_fast.Lookup.Rank.{ranks_setdefault}

-- not user_set
abbrev pub no_users : List Text → Bool
no_users [] = true
no_users (u ∷ us) = false

-- row[3] is None or row[3] in user_set
abbrev pub has_speaker : List Text → Option Text → Bool
has_speaker users none = true
has_speaker users (some speaker) = contains speaker users

abbrev pub is_selected : List Text → List Text → Row → Bool
is_selected sources users row =
    contains row.source sources && (no_users users || has_speaker users row.speaker)

-- row[1] or ""
abbrev pub reading_text : Option Text → Text
reading_text none = []
reading_text (some r) = r

-- A row with no speaker goes first, one whose speaker is not asked for last.
abbrev pub speaker_rank : Dict ℕ → Option Text → ℤ
speaker_rank ranks none = negsuc 0
speaker_rank ranks (some speaker) = pos (Dict.get_or speaker (length ranks) ranks)

abbrev pub SelectKey : Type 0
SelectKey = ℕ × (ℤ × ((Bool × Text) × ℕ))

abbrev pub select_key : Dict ℕ → Dict ℕ → Row → SelectKey
select_key sources users row = (
  Dict.get_or row.source (length sources) sources,
  (speaker_rank users row.speaker, ((is_some row.reading, reading_text row.reading), row.id)),
)

abbrev pub request_key : LookupRequest → Row → SelectKey
request_key request =
    select_key (ranks_setdefault 0 request.sources []) (ranks_setdefault 0 request.users [])

unfoldable pub select_rows : List Row → LookupRequest → List Row
select_rows rows request =
    sort_by (request_key request) (filter (is_selected request.sources request.users) rows)
