-- ===== src/Lookup/First.antt =====
-- `_first_row_unleased`: one pass over the rows that keeps the best by the configured source order.
pub mod Contract
use yomitan_audio_fast.Prelude.{ℕ, List, [], ◌∷◌, Option, none, some, if◌then◌else◌, Bool, is_some}
use yomitan_audio_fast.Prelude.Order.{is_lt, pair_cmp, nat_ord, bool_ord, pair_ord, list_ord}
use yomitan_audio_fast.Prelude.Text.{Text}
use yomitan_audio_fast.Dict
use yomitan_audio_fast.Dict.{Dict}
use yomitan_audio_fast.Lookup.{Row}
use yomitan_audio_fast.Lookup.Rank.{ranks_set}
use yomitan_audio_fast.Lookup.Select.{reading_text}

abbrev pub FirstKey : Type 0
FirstKey = ℕ × (Bool × (Bool × (Text × ℕ)))

abbrev pub first_key : ℕ → Row → FirstKey
first_key source_rank row =
    (source_rank, (is_some row.speaker, (is_some row.reading, (reading_text row.reading, row.id))))

-- `best_key is None or key < best_key`
abbrev pub replace : Option (FirstKey × Row) → FirstKey → Row → Option (FirstKey × Row)
replace none key row = some (key, row)
replace (some (best_key, best)) key row =
    if is_lt (pair_cmp key best_key) then some (key, row) else some (best_key, best)

-- A row of a source that is not configured is passed over.
abbrev pub consider : Dict ℕ → Option (FirstKey × Row) → Row → Option (FirstKey × Row)
consider ranks best row = elim (Dict.get row.source ranks) [
  | none ↦ best
  | some rank ↦ replace best (first_key rank row) row
]

unfoldable pub first_loop : Dict ℕ → Option (FirstKey × Row) → List Row → Option (FirstKey × Row)
first_loop ranks best [] = best
first_loop ranks best (row ∷ rows) = first_loop ranks (consider ranks best row) rows

abbrev pub best_row : Option (FirstKey × Row) → Option Row
best_row none = none
best_row (some (key, row)) = some row

-- `_source_rank` is built from `source_ids` whenever the sources change.
unfoldable pub first_row : List Text → List Row → Option Row
unfolding first_loop
first_row source_ids rows = best_row (first_loop (ranks_set 0 source_ids []) none rows)
