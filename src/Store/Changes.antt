-- ===== src/Store/Changes.antt =====
-- The operations that change what `LookupStore` serves: `reload_pack`, `publish_database`,
-- `invalidate_database`, `replace_sources` and `close`. Each holds the state transition, so no lookup
-- runs beside it. What is found on disk (the new database, the pack that fits it, whether the rows fit
-- into memory, the cleanup marker) comes as arguments.
use yomitan_audio_fast.Prelude.{◌+◌, Option, none, Bool, true, if◌then◌else◌}
use yomitan_audio_fast.Cache
use yomitan_audio_fast.Lookup.{Database}
use yomitan_audio_fast.Pack.{AudioPack}
use yomitan_audio_fast.Store.Payload.{Sources}
use yomitan_audio_fast.Store.State.{StoreState, loaded_rows, fallback_mode}

pub data Outcome : Type 0 where
  done : Outcome
  store_is_closed : Outcome
  cleanup_marker_exists : Outcome

-- `_reload_pack_unleased`: select the pack, count it, and forget the answers
abbrev pub reload_pack_unleased : Option AudioPack → StoreState → StoreState
reload_pack_unleased replacement s = record s {
  site = record s.site { pack = replacement };
  pack_epoch = s.pack_epoch + 1;
  response_cache = Cache.clear s.response_cache;
}

-- A transition of a closed store raises.
abbrev pub transition : StoreState → StoreState → Outcome × StoreState
transition s s' = if s.closed then (store_is_closed, s) else (done, s')

unfoldable pub reload_pack : Option AudioPack → StoreState → Outcome × StoreState
reload_pack replacement s = transition s (reload_pack_unleased replacement s)

-- The database is replaced, its rows are loaded anew if the store holds rows in memory, the epoch is
-- counted, both caches are emptied, and the pack that fits the new database is selected.
abbrev pub activate_database : Database → Bool → Option AudioPack → StoreState → StoreState
activate_database database fits_memory replacement s = reload_pack_unleased replacement (record s {
  database = database;
  lookup_mode = fallback_mode s.lookup_mode fits_memory;
  memory_rows = loaded_rows s.lookup_mode fits_memory database.table s.memory_rows;
  database_epoch = s.database_epoch + 1;
  row_cache = Cache.clear s.row_cache;
  response_cache = Cache.clear s.response_cache;
})

-- `publish_database` and `invalidate_database` refuse while the cleanup marker stands.
unfoldable pub publish_database :
    Bool → Database → Bool → Option AudioPack → StoreState → Outcome × StoreState
publish_database marked database fits_memory replacement s =
    if marked
    then (cleanup_marker_exists, s)
    else transition s (activate_database database fits_memory replacement s)

-- After the database file was replaced behind the store: the same steps, on the file that is there.
unfoldable pub invalidate_database :
    Bool → Database → Bool → Option AudioPack → StoreState → Outcome × StoreState
invalidate_database marked database fits_memory replacement s =
    if marked
    then (cleanup_marker_exists, s)
    else transition s (activate_database database fits_memory replacement s)

-- The source ranks are computed from the sources.
unfoldable pub replace_sources : Sources → StoreState → Outcome × StoreState
replace_sources sources s = transition s (record s {
  site = record s.site { sources = sources };
  response_cache = Cache.clear s.response_cache;
})

-- A second `close` does nothing.
unfoldable pub close : StoreState → StoreState
close s = if s.closed then s else record s {
  closed = true;
  memory_rows = none;
  database_epoch = s.database_epoch + 1;
  pack_epoch = s.pack_epoch + 1;
  site = record s.site { pack = none };
  row_cache = Cache.clear s.row_cache;
  response_cache = Cache.clear s.response_cache;
}
