-- ===== src/Store/Lookups.antt =====
-- The lookups of `LookupStore`: `rows`, `lookup`, `lookup_first`, `candidates_payload`, `best_audio_url`,
-- `selected_rows`. A lookup holds the state lease, so no change of database, pack or sources falls inside
-- it; on a closed store it raises, here `none`.
use yomitan_audio_fast.Prelude.{List, [], ◌∷◌, Option, none, some, if◌then◌else◌}
use yomitan_audio_fast.Prelude.Text.{Text}
use yomitan_audio_fast.Bytes.{Bytes}
use yomitan_audio_fast.Cache
use yomitan_audio_fast.Dict
use yomitan_audio_fast.Lookup.{Row, LookupRequest, FirstAudioRequest}
use yomitan_audio_fast.Lookup.Query.{rows_uncached}
use yomitan_audio_fast.Lookup.Select.{select_rows}
use yomitan_audio_fast.Lookup.First.{first_row}
use yomitan_audio_fast.Store.Payload.{Site, list_payload, candidates_list, optional_row, row_url}
use yomitan_audio_fast.Store.State.{
  StoreState, Request, full, first, ResponseKey, ResponseKey-discrete, RowKey-discrete,
}

abbrev pub uncached : StoreState → Text → Option Text → List Row
uncached s expression reading = rows_uncached s.memory_rows s.database expression reading

-- `_rows_unleased`: the row cache, filled on a miss
abbrev pub fill_rows : StoreState → Text → Option Text → Option (List Row) → List Row × StoreState
fill_rows s expression reading (some rows) = (rows, s)
fill_rows s expression reading none =
    let rows = uncached s expression reading in
    (
      rows,
      record s {
        row_cache =
            Cache.put RowKey-discrete s.row_cache (s.database_epoch, (expression, reading)) rows;
      },
    )

unfoldable pub rows_unleased : StoreState → Text → Option Text → List Row × StoreState
rows_unleased s expression reading =
    let (found, cache) =
      Cache.get RowKey-discrete s.row_cache (s.database_epoch, (expression, reading)) in
    fill_rows (record s { row_cache = cache }) expression reading found

-- `_selected_rows_unleased`
unfoldable pub selected_rows_unleased : StoreState → LookupRequest → List Row × StoreState
selected_rows_unleased s request =
    let (rows, s') = rows_unleased s request.expression request.reading in
    (select_rows rows request, s')

-- `_lookup_with_pack`
abbrev pub lookup_with_pack : StoreState → LookupRequest → Bytes × StoreState
lookup_with_pack s request =
    let (rows, s') = selected_rows_unleased s request in (list_payload s'.site rows, s')

-- `_first_lookup_with_pack`, which leaves the row cache alone
abbrev pub first_lookup_with_pack : StoreState → FirstAudioRequest → Bytes × StoreState
first_lookup_with_pack s request = (
  list_payload s.site (
      optional_row
        (first_row (Dict.keys s.site.sources) (uncached s request.expression request.reading))),
  s,
)

unfoldable pub compute : StoreState → Request → Bytes × StoreState
compute s (full request) = lookup_with_pack s request
compute s (first request) = first_lookup_with_pack s request

abbrev pub response_key : StoreState → Request → ResponseKey
response_key s request = (s.database_epoch, (s.pack_epoch, request))

abbrev pub store_response : Request → Bytes × StoreState → Bytes × StoreState
store_response request (payload, s) = (
  payload,
  record s {
    response_cache =
        Cache.put ResponseKey-discrete s.response_cache (response_key s request) payload;
  },
)

abbrev pub fill_response : StoreState → Request → Option Bytes → Bytes × StoreState
fill_response s request (some payload) = (payload, s)
fill_response s request none = store_response request (compute s request)

-- the body of `lookup` and of `lookup_first` under the leases
unfoldable pub respond : StoreState → Request → Bytes × StoreState
respond s request =
    let (found, cache) = Cache.get ResponseKey-discrete s.response_cache (response_key s request) in
    fill_response (record s { response_cache = cache }) request found

-- `_leased_state` raises on a closed store.
abbrev pub leased {ℓ} : {A : Type ℓ} → StoreState → A × StoreState → Option A × StoreState
leased s (a, s') = if s.closed then (none, s) else (some a, s')

unfoldable pub lookup : StoreState → LookupRequest → Option Bytes × StoreState
unfolding respond
lookup s request = leased s (respond s (full request))

unfoldable pub lookup_first : StoreState → FirstAudioRequest → Option Bytes × StoreState
unfolding respond
lookup_first s request = leased s (respond s (first request))

unfoldable pub rows : StoreState → Text → Option Text → Option (List Row) × StoreState
rows s expression reading = leased s (rows_unleased s expression reading)

unfoldable pub selected_rows : StoreState → LookupRequest → Option (List Row) × StoreState
selected_rows s request = leased s (selected_rows_unleased s request)

abbrev pub payload_of_selected : List Row × StoreState → Bytes × StoreState
payload_of_selected (rows, s) = (candidates_list s.site rows, s)

unfoldable pub candidates_payload : StoreState → LookupRequest → Option Bytes × StoreState
candidates_payload s request = leased s (payload_of_selected (selected_rows_unleased s request))

abbrev pub best_url : Site → List Row → Option Text
best_url site [] = none
best_url site (row ∷ rows) = some (row_url site row)

abbrev pub url_of_selected : List Row × StoreState → Option Text × StoreState
url_of_selected (rows, s) = (best_url s.site rows, s)

unfoldable pub best_audio_url : StoreState → LookupRequest → Option (Option Text) × StoreState
best_audio_url s request = leased s (url_of_selected (selected_rows_unleased s request))
