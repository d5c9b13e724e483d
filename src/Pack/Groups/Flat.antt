-- ===== src/Pack/Groups/Flat.antt =====
-- The groups are the rows of the query, cut where the recording changes.
use mathlib.Core.Path.{ap₂, subst}
use mathlib.Core.List.{Perm}
use yomitan_audio_fast.Prelude.{
  ℕ, ◌<◌, length, length-append, ◌≡◌, ◌∙◌, refl, sym, ap, List, [], ◌∷◌, ◌++◌, Option, true, false,
  arith, map, Bool-cases, inl, inr, filter, ◌&&◌,
}
use yomitan_audio_fast.Prelude.Text.{text_eq_iff}
use yomitan_audio_fast.Prelude.Order.{nat_ord, pair_ord, list_ord}
use yomitan_audio_fast.Sort.{sort_by}
use yomitan_audio_fast.Sort.Ordered.{IsSorted, sort_by-IsSorted, sort_by-perm}
use yomitan_audio_fast.Pack.Groups.{
  PackRow, AudioGroup, GroupKey, row_key, is_same, group_loop, group_cursor, group_rows, queried,
  order_key, is_after, is_through,
}

abbrev rows_of : GroupKey → List ℕ → List PackRow
rows_of key ids = map (λ id. record { id = id; source = key.0; file = key.1 }) ids

-- the rows of the groups, in order
abbrev pub flatten : List AudioGroup → List PackRow
flatten [] = []
flatten (g ∷ groups) = rows_of (g.source, g.filename) g.row_ids ++ flatten groups

rows_of-append :
    (key : GroupKey) (ids : List ℕ) (id : ℕ) (rest : List PackRow)
    → rows_of key (ids ++ id ∷ []) ++ rest
      ≡ rows_of key ids ++ (record { id = id; source = key.0; file = key.1 } ∷ rest)
rows_of-append key [] id rest = refl
rows_of-append key (i ∷ ids) id rest =
    ap (λ l. (record { id = i; source = key.0; file = key.1 }) ∷ l) (rows_of-append key ids id rest)

pub is_same-eq : (a b : GroupKey) → is_same a b ≡ true → a ≡ b
is_same-eq a b e =
    ap₂ (λ s f. (s, f)) (ground (arith, text_eq_iff a.0 b.0)) (ground (arith, text_eq_iff a.1 b.1))

flatten-group_loop :
    (current : GroupKey) (ids : List ℕ) (rows : List PackRow)
    → flatten (group_loop current ids rows) ≡ rows_of current ids ++ rows
unfolding group_loop
flatten-group_loop current ids [] = refl
flatten-group_loop current ids (row ∷ rows) = elim (Bool-cases (is_same (row_key row) current)) [
  | inl e ↦ rw e (
      flatten-group_loop (row_key row) (ids ++ row.id ∷ []) rows
      ∙ rows_of-append (row_key row) ids row.id rows
      ∙ ap (λ key. rows_of key ids ++ (row ∷ rows)) (is_same-eq (row_key row) current e))
  | inr e ↦
      rw e
        (ap (λ l. rows_of current ids ++ l) (flatten-group_loop (row_key row) (row.id ∷ []) rows))
]

flatten-group_cursor : (rows : List PackRow) → flatten (group_cursor rows) ≡ rows
unfolding group_cursor
flatten-group_cursor [] = refl
flatten-group_cursor (row ∷ rows) = flatten-group_loop (row_key row) (row.id ∷ []) rows

-- The rows of the groups, in their order, are in order of source, file and id, and are the rows of the
-- table that come after the one key and up to the other, each as often as in the table.
pub group_rows-flatten :
    (after_key through_key : Option GroupKey) (table : List PackRow)
    → IsSorted order_key (flatten (group_rows after_key through_key table))
      × Perm
          (flatten (group_rows after_key through_key table))
          (filter (λ row. is_after after_key row && is_through through_key row) table)
unfolding group_rows queried
group_rows-flatten after_key through_key table =
    let rows = filter (λ row. is_after after_key row && is_through through_key row) table in
    rw (flatten-group_cursor (sort_by order_key rows))
      (sort_by-IsSorted order_key rows, sort_by-perm order_key rows)

abbrev key_of : AudioGroup → GroupKey
key_of g = (g.source, g.filename)

abbrev DiffersFromFirst : GroupKey → List AudioGroup → Type 0
DiffersFromFirst key [] = Unit
DiffersFromFirst key (g ∷ groups) = is_same (key_of g) key ≡ false

-- Each group has a row, and the next group is of another recording.
abbrev pub AreRuns : List AudioGroup → Type 0
AreRuns [] = Unit
AreRuns (g ∷ groups) = (0 < length g.row_ids) × DiffersFromFirst (key_of g) groups × AreRuns groups

group_loop-first :
    (key current : GroupKey) (ids : List ℕ) (rows : List PackRow)
    → is_same current key ≡ false
    → DiffersFromFirst key (group_loop current ids rows)
unfolding group_loop
group_loop-first key current ids [] h = h
group_loop-first key current ids (row ∷ rows) h =
    elim (Bool-cases (is_same (row_key row) current)) [
      | inl e ↦ rw e (
          group_loop-first key (row_key row) (ids ++ row.id ∷ []) rows
            (subst (λ k. is_same k key ≡ false) (sym (is_same-eq (row_key row) current e)) h))
      | inr e ↦ rw e h
    ]

group_loop-AreRuns :
    (current : GroupKey) (ids : List ℕ) (rows : List PackRow)
    → 0 < length ids
    → AreRuns (group_loop current ids rows)
unfolding group_loop
group_loop-AreRuns current ids [] h = (h, tt, tt)
group_loop-AreRuns current ids (row ∷ rows) h = elim (Bool-cases (is_same (row_key row) current)) [
  | inl e ↦ rw e (
      group_loop-AreRuns (row_key row) (ids ++ row.id ∷ []) rows
        (omega (arith, length-append ids (row.id ∷ []))))
  | inr e ↦ rw e (
    h,
    group_loop-first current (row_key row) (row.id ∷ []) rows e,
    group_loop-AreRuns (row_key row) (row.id ∷ []) rows (omega arith),
  )
]

group_cursor-AreRuns : (rows : List PackRow) → AreRuns (group_cursor rows)
unfolding group_cursor
group_cursor-AreRuns [] = tt
group_cursor-AreRuns (row ∷ rows) =
    group_loop-AreRuns (row_key row) (row.id ∷ []) rows (omega arith)

-- Every group has at least one row, and no two groups in succession are of the same recording.
pub group_rows-AreRuns :
    (after_key through_key : Option GroupKey) (table : List PackRow)
    → AreRuns (group_rows after_key through_key table)
unfolding group_rows
group_rows-AreRuns after_key through_key table =
    group_cursor-AreRuns (queried after_key through_key table)
