-- ===== src/Pack/Groups/Split.antt =====
-- The groups up to a key and the groups after it.
use yomitan_audio_fast.Prelude.{
  ℕ, All, ◌≡◌, ◌∙◌, refl, ap, List, [], ◌∷◌, ◌++◌, none, some, Bool, true, false, ◌&&◌, ◌⊎◌, inl,
  inr, arith, Bool-cases, filter,
}
use yomitan_audio_fast.Prelude.Order.{Ord, is_lt, pair_cmp, nat_ord, pair_ord, list_ord}
use yomitan_audio_fast.Sort.{sort_by, before}
use yomitan_audio_fast.Sort.Split.{sort_by-split, All-sort_by, All-filter}
use yomitan_audio_fast.Pack.Groups.Flat.{is_same-eq}
use yomitan_audio_fast.Pack.Groups.{
  PackRow, group, group_loop, group_cursor, group_rows, GroupKey, is_same, row_key, is_after,
  is_through, order_key, queried,
}

module _ {A : Type 0} ⦃o : Ord A⦄ where
  -- what is not after `k` comes before what is
  cmp_between :
      (x k y : A) → is_lt (o.cmp k x) ≡ false → is_lt (o.cmp k y) ≡ true → is_lt (o.cmp x y) ≡ true
  cmp_between x k y h j = ground (arith, o.cmp_flip k x, o.cmp_eq k x, o.cmp_trans x k y)

abbrev through : GroupKey → PackRow → Bool
through k row = is_after none row && is_through (some k) row

abbrev after : GroupKey → PackRow → Bool
after k row = is_after (some k) row && is_through none row

either_side :
    (k : GroupKey) (row : PackRow)
    → ((through k row ≡ true) × (after k row ≡ false))
      ⊎ ((through k row ≡ false) × (after k row ≡ true))
either_side k row = elim (Bool-cases (is_lt (pair_cmp k (row_key row)))) [
  | inl e ↦ inr (rw e refl, rw e refl)
  | inr e ↦ inl (rw e refl, rw e refl)
]

keys_between :
    (k : GroupKey) (x y : PackRow)
    → through k x ≡ true
    → after k y ≡ true
    → is_lt (pair_cmp (row_key x) (row_key y)) ≡ true
keys_between k x y h j =
    cmp_between (row_key x) k (row_key y) (ground (arith, h)) (ground (arith, j))

order_between :
    (k : GroupKey) (x y : PackRow)
    → through k x ≡ true
    → after k y ≡ true
    → before order_key x y ≡ true
unfolding pair_cmp
order_between k x y h j = ground (arith, keys_between k x y h j)

filter_all : {A : Type 0} (l : List A) → filter (λ x. true && true) l ≡ l
unfolding filter
filter_all [] = refl
filter_all (x ∷ xs) = ap (λ l. x ∷ l) (filter_all xs)

queried-split :
    (k : GroupKey) (table : List PackRow)
    → queried none none table ≡ queried none (some k) table ++ queried (some k) none table
unfolding queried
queried-split k table =
    ap (sort_by order_key) (filter_all table)
    ∙ sort_by-split order_key (through k) (after k) (either_side k) (order_between k) table

-- the key of a row after `k` is another one than a key up to `k`
is_same-between :
    (k current : GroupKey) (y : PackRow)
    → is_lt (pair_cmp k current) ≡ false
    → after k y ≡ true
    → is_same (row_key y) current ≡ false
is_same-between k current y h j = elim (Bool-cases (is_same (row_key y) current)) [
  | inl e ↦
      absurd (
        ground (arith, h, j, ap (λ key. is_lt (pair_cmp k key)) (is_same-eq (row_key y) current e)))
  | inr e ↦ e
]

group_loop-split :
    (k current : GroupKey) (ids : List ℕ) (xs ys : List PackRow)
    → is_lt (pair_cmp k current) ≡ false
    → All (λ x. through k x ≡ true) xs
    → All (λ y. after k y ≡ true) ys
    → group_loop current ids (xs ++ ys) ≡ group_loop current ids xs ++ group_cursor ys
unfolding group_loop group_cursor
group_loop-split k current ids [] [] h xs_through ys_after = refl
group_loop-split k current ids [] (y ∷ ys) h xs_through ys_after =
    rw (is_same-between k current y h ys_after.0) refl
group_loop-split k current ids (x ∷ xs) ys h xs_through ys_after =
    let low : is_lt (pair_cmp k (row_key x)) ≡ false = ground (arith, xs_through.0) in
    elim (Bool-cases (is_same (row_key x) current)) [
      | inl e ↦
          rw e (group_loop-split k (row_key x) (ids ++ x.id ∷ []) xs ys low xs_through.1 ys_after)
      | inr e ↦ rw e (
          ap (λ l. group current ids ∷ l)
            (group_loop-split k (row_key x) (x.id ∷ []) xs ys low xs_through.1 ys_after))
    ]

group_cursor-split :
    (k : GroupKey) (xs ys : List PackRow)
    → All (λ x. through k x ≡ true) xs
    → All (λ y. after k y ≡ true) ys
    → group_cursor (xs ++ ys) ≡ group_cursor xs ++ group_cursor ys
unfolding group_cursor
group_cursor-split k [] ys xs_through ys_after = refl
group_cursor-split k (x ∷ xs) ys xs_through ys_after =
    group_loop-split k (row_key x) (x.id ∷ []) xs ys (ground (arith, xs_through.0)) xs_through.1
      ys_after

-- The groups up to a key and the groups after it are together all the groups, in their order.
pub group_rows-split :
    (k : GroupKey) (table : List PackRow)
    → group_rows none none table ≡ group_rows none (some k) table ++ group_rows (some k) none table
unfolding group_rows queried
group_rows-split k table =
    ap group_cursor (queried-split k table)
    ∙ group_cursor-split k (sort_by order_key (filter (through k) table))
        (sort_by order_key (filter (after k) table))
        (All-sort_by order_key (λ x. through k x ≡ true) (filter (through k) table)
          (All-filter (through k) table))
        (All-sort_by order_key (λ y. after k y ≡ true) (filter (after k) table)
          (All-filter (after k) table))
