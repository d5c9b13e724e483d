-- ===== src/Store/Paths.antt =====
-- `packed_target_for_legacy_path` of `LookupStore`: the recording of a pack that an old link to a loose
-- file stands for. The dictionary is kept until the database changes, and is made at each call here.
pub mod Least
use yomitan_audio_fast.Prelude.{ℕ, List, [], ◌∷◌, Option, none, some, ◌&&◌, if◌then◌else◌, map}
use yomitan_audio_fast.Prelude.Int.{pos}
use yomitan_audio_fast.Prelude.Order.{nat_ord}
use yomitan_audio_fast.Prelude.Text.{Text, text_eq}
use yomitan_audio_fast.Sort.{sort_by}
use yomitan_audio_fast.Lookup.{Row, Entry}
use yomitan_audio_fast.Pack
use yomitan_audio_fast.Pack.{AudioPack}
use yomitan_audio_fast.Store.Payload.{with_slashes}
use yomitan_audio_fast.Store.State.{StoreState}

-- `by_path`: (source, path) to row id
abbrev pub LegacyPaths : Type 0
LegacyPaths = Text → Text → Option ℕ

abbrev pub or_id : Option ℕ → ℕ → ℕ
or_id none id = id
or_id (some earlier) id = earlier

-- by_path.setdefault((row_source, row_filename.replace("\\", "/")), row_id)
unfoldable pub add_path : Row → LegacyPaths → LegacyPaths
add_path row paths source path =
    if text_eq source row.source && text_eq path (with_slashes row.file)
    then some (or_id (paths source path) row.id)
    else paths source path

unfoldable pub add_paths : List Row → LegacyPaths → LegacyPaths
add_paths [] paths = paths
add_paths (row ∷ rows) paths = add_paths rows (add_path row paths)

-- SELECT id,source,file FROM entries ORDER BY id
unfoldable pub rows_by_id : List Entry → List Row
rows_by_id table = sort_by (λ row. row.id) (map (λ entry. entry.row) table)

unfoldable pub legacy_path_rows : List Entry → LegacyPaths
unfolding add_paths rows_by_id
legacy_path_rows table = add_paths (rows_by_id table) (λ source path. none)

-- the active pack, if it has the row
abbrev pub target_in : Option AudioPack → Option ℕ → Option (Text × ℕ)
target_in pack none = none
target_in none (some row_id) = none
target_in (some pack) (some row_id) = elim (Pack.get pack (pos row_id)) [
  | none ↦ none
  | some audio ↦ some (pack.version, row_id)
]

-- On a closed store it raises, here `none`.
unfoldable pub packed_target_for_legacy_path : StoreState → Text → Text → Option (Option (Text × ℕ))
unfolding legacy_path_rows
packed_target_for_legacy_path s source_id filename =
    if s.closed
    then none
    else some (
        target_in s.site.pack (legacy_path_rows s.database.table source_id (with_slashes filename)))
