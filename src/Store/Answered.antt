-- ===== src/Store/Answered.antt =====
-- A lookup of a coherent store answers as if computed anew, and leaves a coherent store.
use mathlib.Core.List.{Perm}
use yomitan_audio_fast.Prelude.{◌≡◌, refl, ap, List, Option, none, some, All}
use yomitan_audio_fast.Prelude.Text.{Text}
use yomitan_audio_fast.Bytes.{Bytes}
use yomitan_audio_fast.Cache
use yomitan_audio_fast.Cache.{LruCache}
use yomitan_audio_fast.Cache.Reads.{get-sound, All-get, All-put}
use yomitan_audio_fast.Dict
use yomitan_audio_fast.Dict.{Dict}
use yomitan_audio_fast.Lookup.{Row, LookupRequest}
use yomitan_audio_fast.Lookup.Select.{select_rows}
use yomitan_audio_fast.Store.Payload.{list_payload, optional_row}
use yomitan_audio_fast.Store.State.{
  StoreState, Request, full, first, ResponseKey, RowKey, ResponseKey-discrete, RowKey-discrete,
}
use yomitan_audio_fast.Store.Lookups.{
  uncached, rows_unleased, selected_rows_unleased, compute, respond, response_key, fill_rows,
  fill_response, store_response,
}
use yomitan_audio_fast.Store.Coherent.{
  database_rows, answer, IsRowEntry, IsResponseEntry, IsCoherent, uncached-database_rows,
  select_found, first_found,
}

-- A run of `_rows_unleased` returned the database's rows, in some order, and changed the row cache at most.
abbrev RowsDone : StoreState → List Row → List Row × StoreState → Type 0
RowsDone s rows result =
    Perm result.0 rows
    × ((c : LruCache RowKey (List Row)) × (result.1 ≡ record s { row_cache = c })
        × All (IsRowEntry s.database_epoch s.database) c.values)

module _ (s : StoreState) (h : IsCoherent s) where
  module _ (expression : Text) (reading : Option Text) where
    abbrev row_key : RowKey
    row_key = (s.database_epoch, (expression, reading))

    fill_rows_lem :
        (c : LruCache RowKey (List Row)) (found : Option (List Row))
        → All (IsRowEntry s.database_epoch s.database) c.values
        → ((rows : List Row)
            → found ≡ some rows
            → Perm rows (database_rows s.database expression reading))
        → RowsDone s
            (database_rows s.database expression reading)
            (fill_rows (record s { row_cache = c }) expression reading found)
    fill_rows_lem c none kept hit =
        let e =
          uncached-database_rows s.lookup_mode s.memory_rows s.database h.sound expression reading
            h.loaded in
        (
          e,
          (
            Cache.put RowKey-discrete c row_key (uncached s expression reading),
            refl,
            All-put RowKey-discrete c row_key (IsRowEntry s.database_epoch s.database)
                (uncached s expression reading) kept (λ _. e),
          ),
        )
    fill_rows_lem c (some rows) kept hit = (hit rows refl, (c, refl, kept))

    rows_unleased_lem :
        RowsDone s
          (database_rows s.database expression reading)
          (rows_unleased s expression reading)
    unfolding rows_unleased
    rows_unleased_lem =
        fill_rows_lem (Cache.get RowKey-discrete s.row_cache row_key).1
          (Cache.get RowKey-discrete s.row_cache row_key).0
          (All-get RowKey-discrete s.row_cache row_key (IsRowEntry s.database_epoch s.database)
            h.rows)
          (λ rows e.
            get-sound RowKey-discrete s.row_cache row_key (IsRowEntry s.database_epoch s.database)
              h.rows e refl)

  -- A computed answer is the database's, and the row cache is all that changed.
  compute_lem :
      (request : Request)
      → ((compute s request).0 ≡ answer s.site s.database request)
        × ((c : LruCache RowKey (List Row)) × ((compute s request).1 ≡ record s { row_cache = c })
            × All (IsRowEntry s.database_epoch s.database) c.values)
  unfolding compute selected_rows_unleased
  compute_lem (full r) =
      let (rows, (c, state, kept)) = rows_unleased_lem r.expression r.reading in
      (
        rw (state, select_found s.database h.sound r.expression r.reading _ rows r) refl,
        (c, state, kept),
      )
  compute_lem (first r) =
      let e =
        uncached-database_rows s.lookup_mode s.memory_rows s.database h.sound r.expression r.reading
          h.loaded in
      (
        ap (λ row. list_payload s.site (optional_row row))
            (first_found s.database h.sound r.expression r.reading _ e (Dict.keys s.site.sources)),
        (s.row_cache, refl, h.rows),
      )

-- A run under the lease returned what is right and changed the caches at most, whose entries are still
-- right.
abbrev pub Answered {ℓ} : {A : Type ℓ} → StoreState → A → A × StoreState → Type ℓ
Answered s right result =
    (result.0 ≡ right)
    × ((c : LruCache ResponseKey Bytes) × (d : LruCache RowKey (List Row)) × (result.1
          ≡ record s { response_cache = c; row_cache = d })
        × IsCoherent (record s { response_cache = c; row_cache = d }))

pub selected_rows_lem :
    (s : StoreState)
    → IsCoherent s
    → (r : LookupRequest)
    → Answered s
        (select_rows (database_rows s.database r.expression r.reading) r)
        (selected_rows_unleased s r)
unfolding selected_rows_unleased
selected_rows_lem s h r =
    let (rows, (c, state, kept)) = rows_unleased_lem s h r.expression r.reading in
    (
      select_found s.database h.sound r.expression r.reading _ rows r,
      (
        s.response_cache,
        c,
        state,
        record { sound = h.sound; loaded = h.loaded; rows = kept; responses = h.responses },
      ),
    )

pub rows_lem :
    (s : StoreState)
    → IsCoherent s
    → (expression : Text) (reading : Option Text)
    → Perm (rows_unleased s expression reading).0 (database_rows s.database expression reading)
      × Answered s (rows_unleased s expression reading).0 (rows_unleased s expression reading)
rows_lem s h expression reading =
    let (rows, (c, state, kept)) = rows_unleased_lem s h expression reading in
    (
      rows,
      (
        refl,
        (
          s.response_cache,
          c,
          state,
          record { sound = h.sound; loaded = h.loaded; rows = kept; responses = h.responses },
        ),
      ),
    )

module _ (s : StoreState) (h : IsCoherent s) (request : Request) where
  abbrev IsRight : ResponseKey × Bytes → Type 0
  IsRight = IsResponseEntry s.site s.database s.database_epoch s.pack_epoch

  store_response_lem :
      (c : LruCache ResponseKey Bytes) (d : LruCache RowKey (List Row))
      (result : Bytes × StoreState)
      → All IsRight c.values
      → All (IsRowEntry s.database_epoch s.database) d.values
      → result.0 ≡ answer s.site s.database request
      → result.1 ≡ record s { response_cache = c; row_cache = d }
      → Answered s (answer s.site s.database request) (store_response request result)
  store_response_lem c d (payload, s') kept rows right state = (
    right,
    (
      Cache.put ResponseKey-discrete c (response_key s request) payload,
      d,
      rw state refl,
      record {
        sound = h.sound;
        loaded = h.loaded;
        rows = rows;
        responses =
            All-put ResponseKey-discrete c (response_key s request) IsRight payload kept
              (λ _ _. right);
      },
    ),
  )

  fill_response_lem :
      (c : LruCache ResponseKey Bytes) (found : Option Bytes)
      → All IsRight c.values
      → ((payload : Bytes) → found ≡ some payload → payload ≡ answer s.site s.database request)
      → Answered s
          (answer s.site s.database request)
          (fill_response (record s { response_cache = c }) request found)
  fill_response_lem c none kept hit =
      let (right, (d, state, rows)) =
        compute_lem (record s { response_cache = c })
          (record { sound = h.sound; loaded = h.loaded; rows = h.rows; responses = kept })
          request in
      store_response_lem c d (compute (record s { response_cache = c }) request) kept rows right
        state
  fill_response_lem c (some payload) kept hit = (
    hit payload refl,
    (
      c,
      s.row_cache,
      refl,
      record { sound = h.sound; loaded = h.loaded; rows = h.rows; responses = kept },
    ),
  )

  -- An answer, from the cache or computed, is the database's.
  pub respond_lem : Answered s (answer s.site s.database request) (respond s request)
  unfolding respond
  respond_lem =
      let key = response_key s request in
      fill_response_lem (Cache.get ResponseKey-discrete s.response_cache key).1
        (Cache.get ResponseKey-discrete s.response_cache key).0
        (All-get ResponseKey-discrete s.response_cache key IsRight h.responses)
        (λ payload e.
          get-sound ResponseKey-discrete s.response_cache key IsRight h.responses e refl refl)
