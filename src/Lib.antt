-- ===== src/Lib.antt =====
-- Yomitan Audio Fast: the lookup and audio server of the Anki add-on (anki-addon/, in Python), which
-- answers Yomitan's requests for recordings of Japanese words.
--
-- The program's parts and the files that model them:
--
-- * Rows and their order (anki-addon/fast_store.py, anki-addon/db_utils.py): Lookup, with Lookup/Query
--   for the two SQL statements and the rows in memory (`_build_memory_rows`, `_rows_uncached`),
--   Lookup/Rank for the dictionaries of ranks, Lookup/Select for `_select_rows`, Lookup/First for
--   `_first_row_unleased`, Lookup/Legacy for `execute_query`. A database is the list of its entries in
--   the order of a scan and the order in which SQLite returns the rows of a query, which no ORDER BY
--   fixes and an index may decide; it is an argument, of which the theorems suppose that it loses and
--   repeats no row. Lookup/Select/Preferences tells the selection and its order without ranks and keys.
--   Sort has Python's stable sort and its single-pass minimum.
-- * The LRU cache (`LruCache` of anki-addon/fast_store.py): Cache. An `OrderedDict` is the list of its
--   entries, the oldest first. Each operation holds the cache's lock, and so is one step.
-- * The store (`LookupStore` of anki-addon/fast_store.py): Store. Store/State has the state,
--   Store/Payload the answers as bytes, Store/Lookups the reading operations, Store/Changes the changing
--   ones, Store/Coherent what the caches hold, Store/Answered the lookups, Store/Model the calls and the
--   store without caches, Store/Simulation each call, Store/History the calls in any order. A reading
--   operation holds the state lease and a changing one excludes all others, so each is one step there.
--   Store/Gate is the gate that excludes them (`_leased_state`, `_begin_state_transition`), a step at a
--   time, and Store/Leases the life of the packs (`_leased_pack_snapshot`, `_retire_pack_locked`).
-- * The audio pack (`AudioPack` of anki-addon/fast_pack.py): Pack, with Pack/Format for the index and
--   its records, Pack/Open for `open_version` and `open_active`, and Pack/Groups for `_group_rows`,
--   which the build reads. A mapped file is the list of its bytes.
-- * The build of a pack (anki-addon/fast_pack.py): Pack/Build, with Pack/Build/Read for `_read_group`,
--   Pack/Build/Consume for `consume` and its loop, Pack/Build/Restore for `_restore_partial_build`,
--   Pack/Build/Stored for what the records and the pack hold, Pack/Build/Renewed and Pack/Build/Restart
--   for a build that is started again. A reader's results come in the order of the groups, since the
--   queue of futures is read from its front.
-- * The cleanup of loose audio (anki-addon/cleanup.py): Cleanup, of which only the comparison of a file
--   with the pack is modelled (`_compare_with_pack`). Its loop runs on as much fuel as the recording has
--   bytes, and one more; a chunk has at least one byte.
-- * The server (anki-addon/server.py): Server, with Server/Range for the `Range` header (`_range`),
--   Server/Response for `_headers`, `_payload` and `_error`, Server/Audio for `_audio_headers`,
--   `_not_modified`, `_packed_audio` and the serving of a file by `_legacy_audio`, Server/Query for the
--   lookup requests (`_parse_lookup`), Server/Path and Server/Resource for the loose files
--   (`_legacy_audio`, `_serve_audio_url`) and Server/Dispatch for `_dispatch`. What `parse_qs` makes of
--   a query is an argument, and so are the files that are found and the text of `info()`, in the record
--   `Environment`. An exception that leaves a handler is the reply `raised`: of a closed store, of
--   `urlsplit`, of the opening of a pack or of `info()`. Errors of the database are not modelled. A
--   request is answered at one state of the store: no change falls between two of its operations.
--   Store/Paths has `packed_target_for_legacy_path`.
-- * The morae of a reading (anki-addon/jp_util.py): Mora, for `split_into_mora`, whose loop runs on as
--   much fuel as the reading has characters.
-- * Dict, Bytes and Encoding are what the above use of Python: dictionaries in insertion order, byte
--   strings, `struct`, `int`, `str.strip`, `urllib.parse.quote` and `unquote`, `json.dumps`. Prelude has
--   the shared names, orders and texts (a text is the list of its code points).
--
-- Numbers are the natural numbers, or integers where the code may meet a negative one (a row id of a
-- request, a bound of a range, the size of a cache). Python's integers have no width; the fields of the
-- pack's index have one, which the theorems on the format name. The printing of a number runs on fuel, of
-- which a number n is given n + 1, more than its digits.
--
-- Parameters of the model: `template % display`, which Python's formatting decides, and the suffix of a
-- path (both in the record `Library` of Store/Payload); what an operation finds on disk (the database that
-- is published, the pack that is opened, whether the rows fit into memory, whether the marker of a cleanup
-- stands) is an argument of the operation.
--
-- `hashlib`, `pathlib`, `os` and `json` in the build are parameters: a hash is a function of the bytes that
-- it was fed, and the files are the record `Files` of Pack/Build/Read.
--
-- Not modelled: the life of the server's runtime in anki-addon/server.py, the pool of database connections
-- and the statistics of anki-addon/fast_store.py, the windows and menus of Anki (anki-addon/gui.py,
-- anki-addon/progress_ui.py, anki-addon/import_dialog.py, anki-addon/__init__.py,
-- anki-addon/standalone.py), SQLite itself, the sockets, the Rust server, benchmarks and tests. Not modelled
-- either: the files of a pack's checkpoint and its publication, the import of a bundle, the other steps of
-- the cleanup, the migration, the configuration and the readers of the audio sources.
pub mod Prelude
pub mod Sort
pub mod Cache
pub mod Cleanup
pub mod Dict
pub mod Lookup
pub mod Bytes
pub mod Pack
pub mod Encoding
pub mod Store
pub mod Server
pub mod Mora
mod Tests
