-- ===== src/Tests/Groups.antt =====
-- Three rows of two recordings.
use mathlib.Core.List.{Perm}
use yomitan_audio_fast.Prelude.{ℕ, ◌++◌, ◌≡◌, refl, ◌&&◌, List, [], ◌∷◌, none, some, filter}
use yomitan_audio_fast.Prelude.Order.{nat_ord, pair_ord, list_ord, pair_cmp, list_cmp}
use yomitan_audio_fast.Prelude.Text.{codes, text_eq}
use yomitan_audio_fast.Sort.{sort_by, insert}
use yomitan_audio_fast.Sort.Ordered.{IsSorted}
use yomitan_audio_fast.Pack.Groups.{
  PackRow, GroupKey, group, group_rows, group_cursor, group_loop, queried, order_key, is_after,
  is_through,
}
use yomitan_audio_fast.Pack.Groups.Split.{group_rows-split}
use yomitan_audio_fast.Pack.Groups.Flat.{flatten, AreRuns, group_rows-flatten, group_rows-AreRuns}

abbrev row : ℕ → PackRow
row id = record { id = id; source = codes "nhk16"; file = codes "a.opus" }

abbrev other : PackRow
other = record { id = 2; source = codes "forvo"; file = codes "b.opus" }

abbrev table : List PackRow
table = row 3 ∷ other ∷ row 1 ∷ []

group-table :
    group_rows none none table
    ≡ group (codes "forvo", codes "b.opus") (2 ∷ [])
      ∷ group (codes "nhk16", codes "a.opus") (1 ∷ 3 ∷ [])
      ∷ []
unfolding group_rows group_cursor group_loop queried sort_by insert filter pair_cmp list_cmp text_eq
group-table = refl

abbrev forvo : GroupKey
forvo = (codes "forvo", codes "b.opus")

group_rows-flatten_example :
    IsSorted order_key (flatten (group_rows (some forvo) none table))
    × Perm
        (flatten (group_rows (some forvo) none table))
        (filter (λ r. is_after (some forvo) r && is_through none r) table)
group_rows-flatten_example = group_rows-flatten (some forvo) none table

group_rows-AreRuns_example : AreRuns (group_rows none none table)
group_rows-AreRuns_example = group_rows-AreRuns none none table

group_rows-split_example :
    group_rows none none table
    ≡ group_rows none (some forvo) table ++ group_rows (some forvo) none table
group_rows-split_example = group_rows-split forvo table
