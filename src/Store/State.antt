-- ===== src/Store/State.antt =====
-- The state of `LookupStore`: the configuration, the database and the pack that it serves, the epochs
-- that count their changes, and the two caches.
use yomitan_audio_fast.Prelude.{
  ℕ, List, [], ◌∷◌, Option, none, some, Bool, true, false, ℕ_discrete, ◌==◌, if◌then◌else◌,
}
use yomitan_audio_fast.Prelude.Int.{ℤ}
use yomitan_audio_fast.Prelude.Text.{Text, codes, text_eq}
use yomitan_audio_fast.Bytes.{Bytes}
use yomitan_audio_fast.Cache
use yomitan_audio_fast.Cache.{LruCache}
use yomitan_audio_fast.Dict.{Dict}
use yomitan_audio_fast.Lookup.{Row, Entry, Database, LookupRequest, FirstAudioRequest}
use yomitan_audio_fast.Lookup.Query.{build_memory_rows}
use yomitan_audio_fast.Store.Payload.{Site}

-- The two request classes are never equal, so one cache holds the answers to both.
pub data Request : Type 0 where
  full : LookupRequest → Request
  first : FirstAudioRequest → Request

pub Request-discrete : Discrete Request
Request-discrete = hlevel ℕ_discrete

-- database epoch, pack epoch, request
abbrev pub ResponseKey : Type 0
ResponseKey = ℕ × (ℕ × Request)

-- database epoch, expression, reading
abbrev pub RowKey : Type 0
RowKey = ℕ × (Text × Option Text)

pub ResponseKey-discrete : Discrete ResponseKey
ResponseKey-discrete = hlevel (ℕ_discrete, Request-discrete)

pub RowKey-discrete : Discrete RowKey
RowKey-discrete = hlevel ℕ_discrete

pub data LookupMode : Type 0 where
  sqlite memory : LookupMode

pub record StoreState : Type 0 where
  pub site : Site
  pub database : Database
  pub lookup_mode : LookupMode
  pub memory_rows : Option (Dict (List Row))
  pub database_epoch : ℕ
  pub pack_epoch : ℕ
  pub response_cache : LruCache ResponseKey Bytes
  pub row_cache : LruCache RowKey (List Row)
  pub closed : Bool

-- lookup_mode if lookup_mode in ("sqlite", "memory") else "sqlite"
abbrev pub lookup_mode_of : Text → LookupMode
lookup_mode_of mode = if text_eq mode (codes "memory") then memory else sqlite

-- `_load_memory_rows`, unless the memory does not suffice (`MemoryError`), in which case the store goes
-- on with the database. Without rows in memory nothing is loaded, and `_memory_rows` stays as it is.
abbrev pub loaded_rows :
    LookupMode → Bool → List Entry → Option (Dict (List Row)) → Option (Dict (List Row))
loaded_rows memory true table before = some (build_memory_rows table [])
loaded_rows memory false table before = none
loaded_rows sqlite fits table before = before

abbrev pub fallback_mode : LookupMode → Bool → LookupMode
fallback_mode memory true = memory
fallback_mode memory false = sqlite
fallback_mode sqlite fits = sqlite

-- base_url.rstrip("/")
unfoldable pub rstrip_slash : Text → Text
rstrip_slash [] = []
rstrip_slash (c ∷ cs) =
    let rest = rstrip_slash cs in
    elim rest [ [] ↦ if c == b'/' then [] else c ∷ [] | d ∷ ds ↦ c ∷ (d ∷ ds) ]

abbrev pub init_site : Site → Site
init_site site = record site { base_url = rstrip_slash site.base_url }

-- `__init__`; `reload_pack` in it selects the pack and counts the first pack epoch.
unfoldable pub init : Site → Database → Text → Bool → ℤ → ℤ → StoreState
init site database mode fits_memory response_size row_size = record {
  site = init_site site;
  database = database;
  lookup_mode = fallback_mode (lookup_mode_of mode) fits_memory;
  memory_rows = loaded_rows (lookup_mode_of mode) fits_memory database.table none;
  database_epoch = 0;
  pack_epoch = 1;
  response_cache = Cache.init response_size;
  row_cache = Cache.init row_size;
  closed = false;
}
