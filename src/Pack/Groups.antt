-- ===== src/Pack/Groups.antt =====
-- The groups of rows that share a recording (anki-addon/fast_pack.py: `_AudioGroup`, `_group_rows`). The
-- rows come in the order of the query, `ORDER BY source, file, id`; SQLite compares texts by their UTF-8
-- bytes, which is the order of their code points.
pub mod Flat
pub mod Split
use yomitan_audio_fast.Prelude.{
  ℕ, List, [], ◌∷◌, ◌++◌, Option, none, some, Bool, true, false, not, ◌&&◌, filter, if◌then◌else◌,
}
use yomitan_audio_fast.Prelude.Order.{is_lt, pair_cmp, nat_ord, pair_ord, list_ord}
use yomitan_audio_fast.Prelude.Text.{Text, text_eq}
use yomitan_audio_fast.Sort.{sort_by}

-- a row of the query: id, source, file
pub record PackRow : Type 0 where
  pub id : ℕ
  pub source : Text
  pub file : Text

pub record AudioGroup : Type 0 where
  pub source : Text
  pub filename : Text
  pub row_ids : List ℕ

abbrev pub GroupKey : Type 0
GroupKey = Text × Text

abbrev pub row_key : PackRow → GroupKey
row_key row = (row.source, row.file)

abbrev pub is_same : GroupKey → GroupKey → Bool
is_same a b = text_eq a.0 b.0 && text_eq a.1 b.1

-- source > ? OR (source = ? AND file > ?)
abbrev pub is_after : Option GroupKey → PackRow → Bool
is_after none row = true
is_after (some key) row = is_lt (pair_cmp key (row_key row))

-- source < ? OR (source = ? AND file <= ?)
abbrev pub is_through : Option GroupKey → PackRow → Bool
is_through none row = true
is_through (some key) row = not (is_lt (pair_cmp key (row_key row)))

abbrev pub order_key : PackRow → GroupKey × ℕ
order_key row = (row_key row, row.id)

-- the rows of the query
unfoldable pub queried : Option GroupKey → Option GroupKey → List PackRow → List PackRow
queried after_key through_key table =
    sort_by order_key (filter (λ row. is_after after_key row && is_through through_key row) table)

abbrev pub group : GroupKey → List ℕ → AudioGroup
group key ids = record { source = key.0; filename = key.1; row_ids = ids }

-- the loop over the cursor, once there is a current key
unfoldable pub group_loop : GroupKey → List ℕ → List PackRow → List AudioGroup
group_loop current ids [] = group current ids ∷ []
group_loop current ids (row ∷ rows) =
    let joined = group_loop (row_key row) (ids ++ row.id ∷ []) rows in
    let split = group current ids ∷ group_loop (row_key row) (row.id ∷ []) rows in
    if is_same (row_key row) current then joined else split

-- the loop from its start, where there is no current key
unfoldable pub group_cursor : List PackRow → List AudioGroup
group_cursor [] = []
group_cursor (row ∷ rows) = group_loop (row_key row) (row.id ∷ []) rows

unfoldable pub group_rows : Option GroupKey → Option GroupKey → List PackRow → List AudioGroup
group_rows after_key through_key table = group_cursor (queried after_key through_key table)
