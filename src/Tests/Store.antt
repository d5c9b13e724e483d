-- ===== src/Tests/Store.antt =====
-- A store of two recordings, without a pack, whose lookups are asked before and after changes of its
-- sources and its database.
use yomitan_audio_fast.Prelude.{refl, map, ◌≡◌, true, false, List, [], ◌∷◌, none, some}
use yomitan_audio_fast.Prelude.Int.{pos}
use yomitan_audio_fast.Prelude.Text.{codes, text_eq}
use yomitan_audio_fast.Tests.Lookup.{table, database, database-IsSound, request}
use yomitan_audio_fast.Store.Payload.{Library, Site}
use yomitan_audio_fast.Store.State.{init, init_site}
use yomitan_audio_fast.Store.Model.{
  Call, call_lookup, call_rows, call_publish, call_replace, SameReplies, call_close, replies,
  model_replies,
}
use yomitan_audio_fast.Sort.{sort_by, insert}
use yomitan_audio_fast.Lookup.{Entry}
use yomitan_audio_fast.Store.Payload.{with_slashes}
use yomitan_audio_fast.Store.Paths.{legacy_path_rows, add_paths, add_path, rows_by_id}
use yomitan_audio_fast.Store.Paths.Least.{IsLeast, legacy_path_rows-IsLeast}
use yomitan_audio_fast.Store.History.{replies-init}

-- a display template with no directive
abbrev library : Library
library = record {
  format_display = λ template name. some template;
  suffix_of = λ name. codes ".opus";
}

abbrev pub site : Site
site = record {
  library = library;
  sources = (codes "nhk16", codes "NHK") ∷ (codes "forvo", codes "Forvo") ∷ [];
  base_url = codes "http://localhost:5050/";
  pack = none;
}

abbrev calls : List Call
calls =
    call_lookup request
    ∷ call_rows (codes "read") none
    ∷ call_replace ((codes "nhk16", codes "NHK 2016") ∷ [])
    ∷ call_lookup request
    ∷ call_publish false database true none
    ∷ call_rows (codes "read") none
    ∷ call_close
    ∷ call_lookup request
    ∷ []

replies-init_example :
    SameReplies
      (replies calls (init site database (codes "memory") true (pos 2) (pos 2)))
      (model_replies calls (record { site = init_site site; database = database; closed = false }))
replies-init_example =
    replies-init site database (codes "memory") true (pos 2) (pos 2) database-IsSound calls
      (tt, (tt, (tt, (tt, (database-IsSound, (tt, (tt, (tt, tt))))))))

legacy_path_rows-IsLeast_example :
    IsLeast
      (codes "nhk16")
      (codes "a.opus")
      (map Entry.row table)
      (legacy_path_rows table (codes "nhk16") (codes "a.opus"))
legacy_path_rows-IsLeast_example = legacy_path_rows-IsLeast table (codes "nhk16") (codes "a.opus")

old_link : legacy_path_rows table (codes "nhk16") (codes "a.opus") ≡ some 1
unfolding legacy_path_rows add_paths add_path rows_by_id text_eq sort_by insert with_slashes
old_link = refl
