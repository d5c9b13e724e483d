-- ===== src/Lookup/Select/Contract.antt =====
-- `_select_rows` does not depend on the order in which the database returned the rows.
use mathlib.Core.List.{Perm, Mem}
use yomitan_audio_fast.Prelude.{◌≡◌, List, filter, ap}
use yomitan_audio_fast.Prelude.Order.{nat_ord, bool_ord, int_ord, pair_ord, list_ord}
use yomitan_audio_fast.Sort.Unique.{sort_by-eq_of_perm, filter-perm, mem_of_mem-filter}
use yomitan_audio_fast.Lookup.{Row, LookupRequest, Row-set}
use yomitan_audio_fast.Lookup.Select.{SelectKey, select_rows, is_selected, request_key}

-- The ids tell rows apart: `id` is the primary key of the table.
abbrev pub HasUniqueIds : List Row → Type 0
HasUniqueIds rows = (a b : Row) → Mem a rows → Mem b rows → a.id ≡ b.id → a ≡ b

-- For rows that differ in their ids, the order in which the database returns them does not change what is
-- selected, nor its order.
pub select_rows-eq_of_perm :
    (rows rows' : List Row) (request : LookupRequest)
    → HasUniqueIds rows
    → Perm rows rows'
    → select_rows rows request ≡ select_rows rows' request
unfolding select_rows
select_rows-eq_of_perm rows rows' request unique p =
    sort_by-eq_of_perm (request_key request) Row-set
      (filter-perm (is_selected request.sources request.users) p)
      (λ a b ma mb e.
        unique a b (of_filter a ma) (of_filter b mb) (ap (λ (k : SelectKey). k.1.1.1) e))
  where
    of_filter :
        (a : Row) → Mem a (filter (is_selected request.sources request.users) rows) → Mem a rows
    of_filter a = mem_of_mem-filter (is_selected request.sources request.users) a rows
