-- ===== src/Tests/Dispatch.antt =====
-- Requests for pages, recordings and lookups.
use yomitan_audio_fast.Prelude.{◌≡◌, refl, [], ◌∷◌, none, some, true, false}
use yomitan_audio_fast.Prelude.Int.{pos}
use yomitan_audio_fast.Prelude.Text.{codes, text_eq}
use yomitan_audio_fast.Tests.Pack.{small}
use yomitan_audio_fast.Tests.Store.{site}
use yomitan_audio_fast.Tests.Lookup.{database}
use yomitan_audio_fast.Store.State.{StoreState, init}
use yomitan_audio_fast.Server.Audio.{RequestHeaders}
use yomitan_audio_fast.Server.Path.{split_slashes, split_first, lstrip_slash, packed_parts}
use yomitan_audio_fast.Server.Query.{parsed}
use yomitan_audio_fast.Server.Resource.{Environment}
use yomitan_audio_fast.Server.Dispatch.{route, play}

-- targets are paths, and each file is the same recording
abbrev environment : Environment
environment = record {
  urlsplit = λ url. some (url, []);
  unquote = λ text. text;
  parse_qs = λ query. parsed ((codes "term", (query, [])) ∷ []);
  is_absolute = λ path. false;
  parts = λ path. path ∷ [];
  media_root = λ source. some source;
  resolve = λ root path. some path;
  is_inside = λ root path. true;
  suffix = λ path. codes ".mp3";
  is_file = λ path. true;
  content = λ path. some (7, 1 ∷ 2 ∷ 3 ∷ []);
  leased = λ version. some (some small);
  info = some (codes "{}");
  version = codes "1";
}

abbrev headers : RequestHeaders
headers = record { range = some (codes "bytes=1-"); if_none_match = none }

abbrev store : StoreState
store = init site database (codes "memory") true (pos 2) (pos 2)

split-packed :
    packed_parts (split_slashes (lstrip_slash (codes "/v/v1/audio/1")))
    ≡ some (codes "v1", codes "1")
unfolding packed_parts split_slashes lstrip_slash text_eq
split-packed = refl

split-loose :
    split_first (lstrip_slash (codes "/nhk16/a/b.mp3")) ≡ some (codes "nhk16", codes "a/b.mp3")
unfolding split_first lstrip_slash
split-loose = refl

route-play : route (codes "/v1/play") (codes "term=x") ≡ play
unfolding route text_eq
route-play = refl
