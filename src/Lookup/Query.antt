-- ===== src/Lookup/Query.antt =====
-- The two ways to find the rows of an expression: the SQL queries, and the rows held in memory.
-- Neither fixes the order of the rows: a query arranges them as SQLite does, and the memory holds them in
-- the order of a scan.
use mathlib.Core.List.{append-nil, append_assoc, Perm, Mem, mem-cons, mem-cons_of_mem, Mem-prop}
use mathlib.Core.List.Perm
use mathlib.Core.Logic.Or
use yomitan_audio_fast.Prelude.{
  ◌≡◌, refl, false, List, [], ◌∷◌, ◌++◌, Option, none, some, arith, if◌then◌else◌, ◌||◌, ◌&&◌, Bool,
  sym, filter, not, is_some, ◌∙◌, ap, map, Bool-cases, inl, inr,
}
use yomitan_audio_fast.Prelude.Text.{Text, text_eq, text_eq_iff}
use yomitan_audio_fast.Dict
use yomitan_audio_fast.Dict.{Dict}
use yomitan_audio_fast.Dict.Laws.{get-set}
use yomitan_audio_fast.Sort.Unique.{mem_of_mem-filter}
use yomitan_audio_fast.Lookup.{Row, Entry, Database}
use yomitan_audio_fast.Lookup.Select.Contract.{HasUniqueIds}

-- reading = ?, of a column that may be NULL
abbrev pub reads : Option Text → Text → Bool
reads none reading = false
reads (some r) reading = text_eq r reading

-- reading IS NULL OR reading = ?
abbrev pub fits_reading : Text → Row → Bool
fits_reading reading row = not (is_some row.reading) || reads row.reading reading

-- WHERE expression = ?
unfoldable pub term_query : Text → List Entry → List Row
term_query expression [] = []
term_query expression (e ∷ table) =
    let rest = term_query expression table in
    if text_eq e.expression expression then e.row ∷ rest else rest

-- WHERE expression = ? AND (reading IS NULL OR reading = ?)
unfoldable pub reading_query : Text → Text → List Entry → List Row
reading_query expression reading [] = []
reading_query expression reading (e ∷ table) =
    let rest = reading_query expression reading table in
    if text_eq e.expression expression && fits_reading reading e.row then e.row ∷ rest else rest

-- the entries that meet the query, in the order of the scan
unfoldable pub matching_rows : List Entry → Text → Option Text → List Row
unfolding term_query reading_query
matching_rows table expression none = term_query expression table
matching_rows table expression (some reading) = reading_query expression reading table

-- `connection.execute(...).fetchall()` with the query for the expression and the reading
unfoldable pub sqlite_rows : Database → Text → Option Text → List Row
unfolding matching_rows
sqlite_rows database expression reading =
    database.arrange expression reading (matching_rows database.table expression reading)

-- What SQLite guarantees: a query returns each row that meets it once, and `id`, the primary key, tells the
-- rows of the table apart.
pub record IsSound (database : Database) : Type 0 where
  pub arranged :
      (expression : Text) (reading : Option Text) (rows : List Row)
      → Perm (database.arrange expression reading rows) rows
  pub unique_ids : HasUniqueIds (map Entry.row database.table)

-- `defaultdict(list)`: `d[k].append(row)`
unfoldable pub append_row : Text → Row → Dict (List Row) → Dict (List Row)
append_row k row d = Dict.set k (Dict.get_or k [] d ++ row ∷ []) d

unfoldable pub build_memory_rows : List Entry → Dict (List Row) → Dict (List Row)
unfolding append_row
build_memory_rows [] d = d
build_memory_rows (e ∷ table) d = build_memory_rows table (append_row e.expression e.row d)

unfoldable pub memory_rows : Dict (List Row) → Text → Option Text → List Row
memory_rows rows expression none = Dict.get_or expression [] rows
memory_rows rows expression (some reading) =
    filter (fits_reading reading) (Dict.get_or expression [] rows)

-- `_rows_uncached`: the rows in memory if there are any, else the database
unfoldable pub rows_uncached : Option (Dict (List Row)) → Database → Text → Option Text → List Row
unfolding sqlite_rows memory_rows
rows_uncached none database expression reading = sqlite_rows database expression reading
rows_uncached (some rows) database expression reading = memory_rows rows expression reading

get-build_memory_rows :
    (k : Text) (table : List Entry) (d : Dict (List Row))
    → Dict.get_or k [] (build_memory_rows table d) ≡ Dict.get_or k [] d ++ term_query k table
unfolding build_memory_rows term_query
get-build_memory_rows k [] d = sym (append-nil (Dict.get_or k [] d))
get-build_memory_rows k (e ∷ table) d =
    get-build_memory_rows k table (append_row e.expression e.row d)
    ∙ ground (
      arith,
      get-set e.expression k (Dict.get_or e.expression [] d ++ e.row ∷ []) d,
      text_eq_iff e.expression k,
      append_assoc (Dict.get_or k [] d) (e.row ∷ []) (term_query k table),
    )

filter-term_query :
    (expression reading : Text) (table : List Entry)
    → filter (fits_reading reading) (term_query expression table)
      ≡ reading_query expression reading table
unfolding term_query reading_query filter
filter-term_query expression reading [] = refl
filter-term_query expression reading (e ∷ table) =
    ground (arith, filter-term_query expression reading table)

memory_rows-matching_rows :
    (table : List Entry) (expression : Text) (reading : Option Text)
    → memory_rows (build_memory_rows table []) expression reading
      ≡ matching_rows table expression reading
unfolding memory_rows matching_rows Dict.get
memory_rows-matching_rows table expression none = get-build_memory_rows expression table []
memory_rows-matching_rows table expression (some reading) =
    ap (filter (fits_reading reading)) (get-build_memory_rows expression table [])
    ∙ filter-term_query expression reading table

pub sqlite_rows-perm :
    (database : Database)
    → IsSound database
    → (expression : Text) (reading : Option Text)
    → Perm
        (sqlite_rows database expression reading)
        (matching_rows database.table expression reading)
unfolding sqlite_rows
sqlite_rows-perm database h expression reading = h.arranged expression reading _

-- For a database that SQLite serves as it promises, the rows built in memory answer every query with the
-- rows that the database returns, each as often, in an order that may differ.
pub rows_uncached-memory :
    (database : Database)
    → IsSound database
    → (expression : Text) (reading : Option Text)
    → Perm
        (rows_uncached (some (build_memory_rows database.table [])) database expression reading)
        (rows_uncached none database expression reading)
unfolding rows_uncached
rows_uncached-memory database h expression reading =
    rw (memory_rows-matching_rows database.table expression reading)
      (Perm.symm (sqlite_rows-perm database h expression reading))

mem-term_query :
    (expression : Text) (table : List Entry) (a : Row)
    → Mem a (term_query expression table)
    → Mem a (map Entry.row table)
unfolding term_query
mem-term_query expression [] a m = m
mem-term_query expression (e ∷ table) a m = elim (Bool-cases (text_eq e.expression expression)) [
  | inl t ↦
      Or.elim Mem-prop (mem-cons.0 (rw t at m)) (λ p. mem-cons.1 (Or.inl p))
        (λ n. mem-cons_of_mem e.row (mem-term_query expression table a n))
  | inr f ↦ mem-cons_of_mem e.row (mem-term_query expression table a (rw f at m))
]

mem-matching_rows :
    (table : List Entry) (expression : Text) (reading : Option Text) (a : Row)
    → Mem a (matching_rows table expression reading)
    → Mem a (map Entry.row table)
unfolding matching_rows
mem-matching_rows table expression none a m = mem-term_query expression table a m
mem-matching_rows table expression (some reading) a m = mem-term_query expression table a (
    mem_of_mem-filter (fits_reading reading) a (term_query expression table)
      (rw (filter-term_query expression reading table) m))

pub sqlite_rows-HasUniqueIds :
    (database : Database)
    → IsSound database
    → (expression : Text) (reading : Option Text)
    → HasUniqueIds (sqlite_rows database expression reading)
sqlite_rows-HasUniqueIds database h expression reading a b ma mb =
    h.unique_ids a b (of_table a ma) (of_table b mb)
  where
    of_table :
        (c : Row)
        → Mem c (sqlite_rows database expression reading)
        → Mem c (map Entry.row database.table)
    of_table c m =
        mem-matching_rows database.table expression reading c
          ((Perm.mem_iff (sqlite_rows-perm database h expression reading)).0 m)
