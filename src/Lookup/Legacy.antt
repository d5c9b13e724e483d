-- ===== src/Lookup/Legacy.antt =====
-- `execute_query` of anki-addon/db_utils.py, the query of the original add-on: the same filter, and rank
-- dictionaries built by comprehensions.
use yomitan_audio_fast.Prelude.{◌≡◌, List, [], none, filter}
use yomitan_audio_fast.Prelude.Order.{nat_ord, bool_ord, int_ord, pair_ord, list_ord}
use yomitan_audio_fast.Sort.{sort_by}
use yomitan_audio_fast.Lookup.{Row, Database, LookupRequest}
use yomitan_audio_fast.Lookup.Rank.{ranks_set, ranks_agree, HasDistinct}
use yomitan_audio_fast.Lookup.Query.{sqlite_rows, rows_uncached}
use yomitan_audio_fast.Lookup.Select.{select_rows, select_key, is_selected}

unfoldable pub execute_query : Database → LookupRequest → List Row
execute_query database query =
    sort_by (select_key (ranks_set 0 query.sources []) (ranks_set 0 query.users [])) (
      filter (is_selected query.sources query.users)
        (sqlite_rows database query.expression query.reading))

-- For a query that names no source and no user twice, the rows that the server selects from the
-- database are those that the original query returned, in the same order.
pub execute_query-eq-select_rows :
    (database : Database) (query : LookupRequest)
    → HasDistinct query.sources
    → HasDistinct query.users
    → execute_query database query
      ≡ select_rows (rows_uncached none database query.expression query.reading) query
unfolding execute_query select_rows rows_uncached
execute_query-eq-select_rows database query s u =
    rw (← ranks_agree query.sources s, ← ranks_agree query.users u)
