-- ===== src/Lookup/First/Contract.antt =====
-- The single candidate of `/v1/first` is the first of the full list with no filters.
use yomitan_audio_fast.Prelude.{
  ℕ, Bool, ◌≡◌, refl, ◌∙◌, ap, List, [], ◌∷◌, Option, none, some, arith, filter, head?, is_some,
  length,
}
use yomitan_audio_fast.Prelude.Order.{nat_ord, bool_ord, int_ord, pair_ord, list_ord, pair_cmp}
use yomitan_audio_fast.Prelude.Text.{Text}
use yomitan_audio_fast.Dict
use yomitan_audio_fast.Dict.{Dict}
use yomitan_audio_fast.Sort.{before, better, scan, sort_by}
use mathlib.Core.List.{Perm}
use yomitan_audio_fast.Sort.Unique.{sort_by-eq_of_perm, filter-perm, mem_of_mem-filter}
use yomitan_audio_fast.Sort.Head.{head?-sort_by, sort_by-ext}
use yomitan_audio_fast.Lookup.{Row, LookupRequest, Row-set}
use yomitan_audio_fast.Lookup.Rank.{
  ranks_setdefault, ranks_set, ranks_agree, is_some-ranks, HasDistinct,
}
use yomitan_audio_fast.Lookup.Select.{select_rows, select_key, is_selected}
use yomitan_audio_fast.Lookup.Select.Contract.{HasUniqueIds}
use yomitan_audio_fast.Lookup.First.{FirstKey, first_key, first_loop, best_row, first_row}

module _ (ranks : Dict ℕ) where
  abbrev ranked_key : Row → FirstKey
  ranked_key row = first_key (Dict.get_or row.source (length ranks) ranks) row

  is_ranked : Row → Bool
  is_ranked row = is_some (Dict.get row.source ranks)

  -- the pass skips what is not ranked, and is the scan of the sort on the rest
  first_loop-scan :
      (b : Row) (rows : List Row)
      → best_row (first_loop ranks (some (ranked_key b, b)) rows)
        ≡ some (scan ranked_key b (filter is_ranked rows))
  unfolding first_loop scan filter better is_ranked
  first_loop-scan b [] = refl
  first_loop-scan b (r ∷ rows) = ground (arith, first_loop-scan b rows, first_loop-scan r rows)

  first_loop-head :
      (rows : List Row)
      → best_row (first_loop ranks none rows) ≡ head? (sort_by ranked_key (filter is_ranked rows))
  unfolding first_loop filter is_ranked
  first_loop-head [] = (unfold sort_by in refl)
  first_loop-head (r ∷ rows) = ground (
    arith,
    first_loop-head rows,
    first_loop-scan r rows,
    head?-sort_by ranked_key r (filter is_ranked rows),
  )

filter-ext {ℓ} :
    {A : Type ℓ} (p q : A → Bool) (l : List A) → ((a : A) → p a ≡ q a) → filter p l ≡ filter q l
unfolding filter
filter-ext p q [] h = refl
filter-ext p q (x ∷ xs) h = rw (h x, filter-ext p q xs h)

-- For rows that differ in their ids, their order does not change which one is first.
pub first_row-eq_of_perm :
    (source_ids : List Text) (rows rows' : List Row)
    → HasUniqueIds rows
    → Perm rows rows'
    → first_row source_ids rows ≡ first_row source_ids rows'
unfolding first_row
first_row-eq_of_perm source_ids rows rows' unique p =
    let ranks = ranks_set 0 source_ids [] in
    rw (first_loop-head ranks rows, first_loop-head ranks rows')
      (ap head? (
        sort_by-eq_of_perm (ranked_key ranks) Row-set (filter-perm (is_ranked ranks) p)
          (λ a b ma mb e.
            unique a b (mem_of_mem-filter (is_ranked ranks) a rows ma)
              (mem_of_mem-filter (is_ranked ranks) b rows mb)
              (ap (λ (k : FirstKey). k.1.1.1.1) e))))

-- the request that the single-candidate endpoint stands for
abbrev pub unfiltered : Text → Option Text → List Text → LookupRequest
unfiltered expression reading source_ids = record {
  expression = expression;
  reading = reading;
  sources = source_ids;
  users = [];
}

is_ranked-eq-is_selected :
    (source_ids : List Text) (row : Row)
    → is_ranked (ranks_setdefault 0 source_ids []) row ≡ is_selected source_ids [] row
unfolding is_ranked
is_ranked-eq-is_selected source_ids row = ground (arith, is_some-ranks row.source source_ids)

before_agree :
    (ranks : Dict ℕ) (a b : Row) → before (ranked_key ranks) a b ≡ before (select_key ranks []) a b
unfolding pair_cmp Dict.get
before_agree ranks a b = ground arith

-- For distinct source ids, the row of `/v1/first` is the first of the rows that the full lookup with no
-- source or user filter selects; there is none exactly if that selects none.
pub first_row-eq-head :
    (source_ids : List Text) (rows : List Row) (expression : Text) (reading : Option Text)
    → HasDistinct source_ids
    → first_row source_ids rows
      ≡ head? (select_rows rows (unfiltered expression reading source_ids))
unfolding first_row select_rows ranks_setdefault
first_row-eq-head source_ids rows expression reading h =
    let ranks = ranks_setdefault 0 source_ids [] in
    rw (← ranks_agree source_ids h) (
      first_loop-head ranks rows
      ∙ ap head? (
          sort_by-ext (ranked_key ranks) (select_key ranks []) (before_agree ranks)
            (filter (is_ranked ranks) rows)
          ∙ ap (sort_by (select_key ranks [])) (
              filter-ext (is_ranked ranks) (is_selected source_ids []) rows
                (is_ranked-eq-is_selected source_ids))))
