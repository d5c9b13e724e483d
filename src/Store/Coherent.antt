-- ===== src/Store/Coherent.antt =====
-- What the caches and the rows in memory hold, told by the database, the pack and the sources of the moment.
use mathlib.Core.List.{Perm}
use mathlib.Core.List.Perm
use yomitan_audio_fast.Prelude.{ℕ, ◌≡◌, ◌⊎◌, inl, inr, sym, List, [], Option, none, some, All}
use yomitan_audio_fast.Prelude.Text.{Text}
use yomitan_audio_fast.Bytes.{Bytes}
use yomitan_audio_fast.Dict
use yomitan_audio_fast.Dict.{Dict}
use yomitan_audio_fast.Lookup.{Row, Entry, Database, LookupRequest}
use yomitan_audio_fast.Lookup.Query.{
  rows_uncached, build_memory_rows, rows_uncached-memory, sqlite_rows, IsSound,
  sqlite_rows-HasUniqueIds,
}
use yomitan_audio_fast.Lookup.Select.Contract.{select_rows-eq_of_perm}
use yomitan_audio_fast.Lookup.First.Contract.{first_row-eq_of_perm}
use yomitan_audio_fast.Lookup.Select.{select_rows}
use yomitan_audio_fast.Lookup.First.{first_row}
use yomitan_audio_fast.Store.Payload.{Site, list_payload, optional_row}
use yomitan_audio_fast.Store.State.{
  StoreState, LookupMode, sqlite, memory, Request, full, first, ResponseKey, RowKey,
}

-- the rows of the database, with no cache and no copy in memory
abbrev pub database_rows : Database → Text → Option Text → List Row
database_rows database expression reading = sqlite_rows database expression reading

-- the answer to a request, from the database, the pack and the sources alone
abbrev pub answer : Site → Database → Request → Bytes
answer site database (full r) =
    list_payload site (select_rows (database_rows database r.expression r.reading) r)
answer site database (first r) = list_payload site (
    optional_row
      (first_row (Dict.keys site.sources) (database_rows database r.expression r.reading)))

-- an entry of the row cache under the current epoch
abbrev pub IsRowEntry : ℕ → Database → RowKey × List Row → Type 0
IsRowEntry epoch database e = e.0.0 ≡ epoch → Perm e.1 (database_rows database e.0.1.0 e.0.1.1)

-- an entry of the response cache under the current epochs
abbrev pub IsResponseEntry : Site → Database → ℕ → ℕ → ResponseKey × Bytes → Type 0
IsResponseEntry site database database_epoch pack_epoch e =
    e.0.0 ≡ database_epoch → e.0.1.0 ≡ pack_epoch → e.1 ≡ answer site database e.0.1.1

-- the rows in memory, which only a store in memory mode has
abbrev pub IsLoaded : LookupMode → List Entry → Option (Dict (List Row)) → Type 0
IsLoaded sqlite table rows = rows ≡ none
IsLoaded memory table rows = (rows ≡ none) ⊎ (rows ≡ some (build_memory_rows table []))

pub record IsCoherent (s : StoreState) : Type 0 where
  pub sound : IsSound s.database
  pub loaded : IsLoaded s.lookup_mode s.database.table s.memory_rows
  pub rows : All (IsRowEntry s.database_epoch s.database) s.row_cache.values
  pub responses :
      All (IsResponseEntry s.site s.database s.database_epoch s.pack_epoch) s.response_cache.values

pub uncached-database_rows :
    (mode : LookupMode) (memory_rows : Option (Dict (List Row))) (database : Database)
    → IsSound database
    → (expression : Text) (reading : Option Text) → IsLoaded mode database.table memory_rows
    → Perm
        (rows_uncached memory_rows database expression reading)
        (database_rows database expression reading)
uncached-database_rows sqlite m database h expression reading e =
    rw e (unfold rows_uncached in Perm.refl _)
uncached-database_rows memory m database h expression reading (inl e) =
    rw e (unfold rows_uncached in Perm.refl _)
uncached-database_rows memory m database h expression reading (inr e) = rw e (
    Perm.trans (rows_uncached-memory database h expression reading)
      (unfold rows_uncached in Perm.refl _))

-- Rows in another order give the same selection and the same first row.
module _ (database : Database) (h : IsSound database) (expression : Text) (reading : Option Text)
    (found : List Row) (p : Perm found (database_rows database expression reading)) where
  pub select_found :
      (r : LookupRequest)
      → select_rows found r ≡ select_rows (database_rows database expression reading) r
  select_found r = sym (
      select_rows-eq_of_perm _ found r (sqlite_rows-HasUniqueIds database h expression reading)
        (Perm.symm p))

  pub first_found :
      (source_ids : List Text)
      → first_row source_ids found
        ≡ first_row source_ids (database_rows database expression reading)
  first_found source_ids = sym (
      first_row-eq_of_perm source_ids _ found
        (sqlite_rows-HasUniqueIds database h expression reading) (Perm.symm p))
