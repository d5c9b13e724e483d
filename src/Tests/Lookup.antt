-- ===== src/Tests/Lookup.antt =====
-- Rows of two sources, looked up, selected and ordered.
use mathlib.Core.Logic.Or
use mathlib.Core.List.{Perm, mem-cons, mem-singleton}
use mathlib.Core.List.Perm
use yomitan_audio_fast.Prelude.{
  ℕ, Bool, is_some, ℕ_discrete, ◌≡◌, ◌≢◌, ◌∙◌, sym, ap, refl, List, [], ◌∷◌, none, some, head?,
  arith,
}
use yomitan_audio_fast.Prelude.Order.{pair_cmp, nat_ord, bool_ord, int_ord, pair_ord, list_ord}
use yomitan_audio_fast.Prelude.Text.{Text, codes, contains, text_eq}
use yomitan_audio_fast.Sort.Ordered.{sort_by-perm}
use yomitan_audio_fast.Lookup.{Row, Entry, Database, LookupRequest}
use yomitan_audio_fast.Lookup.Rank.{HasDistinct}
use yomitan_audio_fast.Lookup.Query.{
  rows_uncached, build_memory_rows, rows_uncached-memory, IsSound, sqlite_rows, matching_rows,
  term_query, memory_rows, append_row,
}
use yomitan_audio_fast.Dict
use yomitan_audio_fast.Sort.{sort_by, insert}
use yomitan_audio_fast.Lookup.Select.{reading_text, select_rows}
use yomitan_audio_fast.Lookup.Select.Contract.{HasUniqueIds, select_rows-eq_of_perm}
use yomitan_audio_fast.Lookup.Select.Preferences.{IsSelection}
use yomitan_audio_fast.Lookup.Select.Order.{select_rows-IsSelection}
use yomitan_audio_fast.Lookup.First.{first_row}
use yomitan_audio_fast.Lookup.First.Contract.{unfiltered, first_row-eq-head}
use yomitan_audio_fast.Lookup.Legacy.{execute_query, execute_query-eq-select_rows}

abbrev nhk : Row
nhk = record {
  id = 1;
  reading = some (codes "yomu");
  source = codes "nhk16";
  speaker = none;
  display = none;
  file = codes "a.opus";
}

abbrev forvo : Row
forvo = record {
  id = 2;
  reading = none;
  source = codes "forvo";
  speaker = some (codes "skent");
  display = some (codes "skent");
  file = codes "b.opus";
}

abbrev rows : List Row
rows = nhk ∷ forvo ∷ []

abbrev pub table : List Entry
table =
    record { expression = codes "read"; row = nhk }
    ∷ record { expression = codes "read"; row = forvo }
    ∷ []

-- A query is served in the order of the index over expression and reading, NULL first.
abbrev index_key : Row → Bool × (Text × ℕ)
index_key row = (is_some row.reading, (reading_text row.reading, row.id))

abbrev pub database : Database
database = record { table = table; arrange = λ expression reading rows. sort_by index_key rows }

abbrev pub source_ids : List Text
source_ids = codes "forvo" ∷ codes "nhk16" ∷ []

abbrev pub request : LookupRequest
request = record {
  expression = codes "read";
  reading = some (codes "yomu");
  sources = source_ids;
  users = codes "skent" ∷ [];
}

source_ids-HasDistinct : HasDistinct source_ids
unfolding contains text_eq
source_ids-HasDistinct = (refl, (refl, tt))

users-HasDistinct : HasDistinct (codes "skent" ∷ [])
unfolding contains text_eq
users-HasDistinct = (refl, tt)

row_set : IsSet Row
row_set = hlevel ℕ_discrete

pair-HasUniqueIds : (x y : Row) → x.id ≢ y.id → HasUniqueIds (x ∷ y ∷ [])
pair-HasUniqueIds x y ne a b ma mb e =
    Or.elim (row_set a b) (mem-cons.0 ma)
      (λ p.
        Or.elim (row_set a b) (mem-cons.0 mb) (λ q. p ∙ sym q)
          (λ m. absurd (ne (sym (ap Row.id p) ∙ e ∙ ap Row.id ((mem-singleton row_set).0 m)))))
      (λ m.
        Or.elim (row_set a b) (mem-cons.0 mb)
          (λ q. absurd (ne (sym (ap Row.id q) ∙ sym e ∙ ap Row.id ((mem-singleton row_set).0 m))))
          (λ n. (mem-singleton row_set).0 m ∙ sym ((mem-singleton row_set).0 n)))

rows-HasUniqueIds : HasUniqueIds rows
rows-HasUniqueIds = pair-HasUniqueIds nhk forvo (omega arith)

pub database-IsSound : IsSound database
database-IsSound = record {
  arranged = λ expression reading rows. sort_by-perm index_key rows;
  unique_ids = rows-HasUniqueIds;
}

select_rows-IsSelection_example : IsSelection request rows (select_rows rows request)
select_rows-IsSelection_example = select_rows-IsSelection rows request

select_rows-eq_of_perm_example : select_rows rows request ≡ select_rows (forvo ∷ nhk ∷ []) request
select_rows-eq_of_perm_example =
    select_rows-eq_of_perm rows (forvo ∷ nhk ∷ []) request rows-HasUniqueIds
      (Perm.swap forvo nhk [])

first_row-eq-head_example :
    first_row source_ids rows ≡ head? (select_rows rows (unfiltered (codes "read") none source_ids))
first_row-eq-head_example =
    first_row-eq-head source_ids rows (codes "read") none source_ids-HasDistinct

execute_query-eq-select_rows_example :
    execute_query database request
    ≡ select_rows (rows_uncached none database (codes "read") (some (codes "yomu"))) request
execute_query-eq-select_rows_example =
    execute_query-eq-select_rows database request source_ids-HasDistinct users-HasDistinct

rows_uncached-memory_example :
    Perm
      (rows_uncached (some (build_memory_rows table [])) database (codes "read") none)
      (rows_uncached none database (codes "read") none)
rows_uncached-memory_example = rows_uncached-memory database database-IsSound (codes "read") none

-- The memory and the index return these rows in different orders.
memory_order : rows_uncached (some (build_memory_rows table [])) database (codes "read") none ≡ rows
unfolding rows_uncached build_memory_rows memory_rows append_row text_eq Dict.get Dict.set
memory_order = refl

index_order : rows_uncached none database (codes "read") none ≡ forvo ∷ nhk ∷ []
unfolding rows_uncached sqlite_rows matching_rows term_query text_eq sort_by insert pair_cmp
index_order = refl
