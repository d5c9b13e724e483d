-- ===== src/Tests/Build.antt =====
-- Building a pack, and starting again, on two groups that share a recording.
use yomitan_audio_fast.Prelude.{
  ℕ, ◌≡◌, refl, List, [], ◌∷◌, ◌++◌, none, some, true, false, length, arith, All, map, take, filter,
}
use yomitan_audio_fast.Prelude.Text.{Text, codes, text_eq}
use yomitan_audio_fast.Prelude.Order.{list_cmp, pair_cmp}
use yomitan_audio_fast.Bytes.{Bytes, write_at, zeros, le_bytes}
use yomitan_audio_fast.Sort.{sort_by, insert}
use yomitan_audio_fast.Encoding.Percent.{utf8, utf8_char}
use yomitan_audio_fast.Pack.Index.{index_size, put_record}
use yomitan_audio_fast.Pack.Format.{pack_record, mime_by_id, mime_id_by_suffix}
use yomitan_audio_fast.Pack.Groups.{
  PackRow, AudioGroup, GroupKey, group, group_rows, group_cursor, group_loop, queried,
}
use yomitan_audio_fast.Pack.Build.Read.{
  FileStat, StateItem, text, number, Files, source_state_token, read_group, has_dots,
}
use yomitan_audio_fast.Pack.Build.Read.Results.{read_group-IsRead}
use yomitan_audio_fast.Pack.Build.Consume.{
  ReadResult, BuildState, new_build, clear_group_records, put_records, find_region, add_region,
  consume, consume_all,
}
use yomitan_audio_fast.Pack.Build.Stored.Sound.{IsResult, Holds}
use yomitan_audio_fast.Pack.Build.Stored.Built.{
  HasDistinctRows, new_build-Holds, consume_all-IsSound, new_build-IsSound, length-new_build,
}
use yomitan_audio_fast.Pack.Build.Restore.State.{Restoring, restored}
use yomitan_audio_fast.Pack.Build.Restore.{
  last_group, restore_partial_build, resumed, checkpoint_of,
}
use yomitan_audio_fast.Pack.Build.Restore.Resumed.{IsRead, restore_partial_build-resumed}
use yomitan_audio_fast.Pack.Build.Restore.Accepted.{IsAccepted, restore_partial_build-IsAccepted}
use yomitan_audio_fast.Pack.Build.Restart.{SameBuild, restart-SameBuild, truncated, checkpointed}

abbrev nhk : GroupKey
nhk = (codes "nhk16", codes "a.mp3")

abbrev forvo : GroupKey
forvo = (codes "zforvo", codes "b.mp3")

abbrev digest_of : Bytes → Bytes
digest_of content = take 1 content

abbrev state_of : AudioGroup → Bytes
state_of g = g.filename

abbrev read : GroupKey → List ℕ → Bytes → ReadResult
read key ids content = record {
  group = group key ids;
  content = some content;
  digest = some (digest_of content);
  mime_id = 1;
  source_state = key.1;
}

abbrev first : ReadResult
first = read nhk (1 ∷ 3 ∷ []) (7 ∷ 8 ∷ [])

abbrev second : ReadResult
second = read forvo (2 ∷ []) (7 ∷ 8 ∷ [])

abbrev entries : List PackRow
entries =
    record { id = 1; source = nhk.0; file = nhk.1 }
    ∷ record { id = 2; source = forvo.0; file = forvo.1 }
    ∷ record { id = 3; source = nhk.0; file = nhk.1 }
    ∷ []

first-IsResult : IsResult 3 first
first-IsResult = record {
  below = (omega arith, (omega arith, tt));
  mime = omega arith;
  small = omega arith;
}

second-IsResult : IsResult 3 second
second-IsResult = record { below = (omega arith, tt); mime = omega arith; small = omega arith }

first-IsRead : IsRead 3 digest_of state_of first
unfolding mime_by_id
first-IsRead = record {
  result = first-IsResult;
  some_row = omega arith;
  token = refl;
  hashed = (refl, omega arith, omega arith, refl);
}

two_groups : HasDistinctRows (first ∷ second ∷ [])
two_groups = (((((λ e. omega (arith, e)), tt), (((λ e. omega (arith, e)), tt), tt)), tt), (tt, tt))

groups_done : map (λ r. r.group) (first ∷ []) ≡ group_rows none (some nhk) entries
unfolding group_rows group_cursor group_loop queried sort_by insert filter pair_cmp list_cmp text_eq
groups_done = refl

-- the second recording is the first's
shared : (consume_all (first ∷ second ∷ []) (new_build 9 9 3)).counters.content_duplicates ≡ 1
unfolding new_build clear_group_records put_records find_region add_region consume consume_all zeros
    text_eq write_at put_record pack_record le_bytes
shared = refl

new_build-Holds_example :
    All (Holds (consume_all (first ∷ second ∷ []) (new_build 9 9 3))) (first ∷ second ∷ [])
new_build-Holds_example =
    new_build-Holds 3 9 9 (first ∷ second ∷ []) (first-IsResult, (second-IsResult, tt)) two_groups
      (omega arith)

abbrev build : BuildState
build = checkpointed 3 digest_of state_of (take 2) 9 9 entries (first ∷ []) (second ∷ []) nhk

restart_size : length build.index ≡ index_size 3
restart_size =
    (consume_all-IsSound 3 (first ∷ []) (new_build 9 9 3) (first-IsResult, tt)
      (new_build-IsSound 3 9 9) (rw (length-new_build 3 9 9) (omega arith))).size

groups_rest : map (λ r. r.group) (second ∷ []) ≡ group_rows (some nhk) none entries
unfolding group_rows group_cursor group_loop queried sort_by insert filter pair_cmp list_cmp text_eq
groups_rest = refl

last_done : last_group (map (λ r. r.group) (first ∷ [])) ≡ some nhk
unfolding last_group
last_done = refl

abbrev Restarted : (Bytes → Bytes) → Type 0
Restarted cut =
    (acc : Restoring) × (restore_partial_build digest_of (take 2) state_of build.index
        (cut (5 ∷ [])) (checkpoint_of (take 2) (some nhk) build) 9 9 entries
      ≡ restored acc)
    × (map (λ r. r.group) (first ∷ second ∷ []) ≡ group_rows none none entries)
    × SameBuild (first ∷ second ∷ []) (consume_all (first ∷ second ∷ []) (new_build 9 9 3))
        (consume_all (second ∷ []) (resumed acc build.index (cut (5 ∷ []))))

-- a byte of a later recording behind what the checkpoint says
restart-SameBuild_example :
    Restarted (truncated 3 digest_of state_of (take 2) 9 9 entries (first ∷ []) (second ∷ []) nhk)
restart-SameBuild_example =
    restart-SameBuild 3 digest_of state_of (take 2) 9 9 entries (first ∷ []) (second ∷ []) nhk
      build.index (5 ∷ []) (first-IsRead, tt) (second-IsResult, tt) (tt, tt) (omega arith)
      groups_done groups_rest last_done restart_size ((refl, (refl, tt)), tt)

-- the restart that accepts
accepted :
    (acc : Restoring) × (restore_partial_build digest_of
        (take 2)
        state_of
        build.index
        build.pack
        (checkpoint_of (take 2) (some nhk) build)
        9
        9
        entries
      ≡ restored acc)
accepted =
    let (acc, run, same) =
      restore_partial_build-resumed 3 digest_of state_of (take 2) 9 9 entries (first ∷ [])
        (some nhk) build.index (first-IsRead, tt) (tt, tt) (omega arith) groups_done last_done
        ((refl, (refl, tt)), tt) in
    (acc, run)

restore_partial_build-IsAccepted_example :
    IsAccepted digest_of
      (take 2)
      state_of
      build.index
      (checkpoint_of (take 2) (some nhk) build)
      (group_rows none (some nhk) entries)
      accepted.0
restore_partial_build-IsAccepted_example =
    restore_partial_build-IsAccepted digest_of (take 2) state_of build.index build.pack
      (checkpoint_of (take 2) (some nhk) build) 9 9 entries accepted.0 accepted.1

-- files of which each is `path`, without a source's root
abbrev some_stat : FileStat
some_stat = record {
  st_dev = 1;
  st_ino = 2;
  st_mode = 3;
  st_size = 2;
  st_mtime_ns = 4;
  st_ctime_ns = 5;
}

abbrev first_text : List StateItem → Text
first_text [] = []
first_text (text t ∷ items) = t
first_text (number n ∷ items) = n ∷ []

abbrev files : Files
files = record {
  is_absolute = λ path. false;
  parts = λ path. path ∷ [];
  resolve = λ root path. some (root ++ path);
  is_inside = λ root path. true;
  suffix = λ path. codes ".mp3";
  stat = λ path. some some_stat;
  is_file = λ path. true;
  read_bytes = λ path. some (7 ∷ 8 ∷ []);
  dumps = first_text;
  dumps_compact = first_text;
}

read_group-first :
    (read_group digest_of files files (λ source. some (codes "/")) (group nhk (1 ∷ 3 ∷ []))).content
    ≡ some (7 ∷ 8 ∷ [])
unfolding read_group source_state_token text_eq mime_id_by_suffix has_dots utf8 utf8_char
read_group-first = refl

read_group-IsRead_example :
    IsRead 3 digest_of
      (λ g. (source_state_token files (λ source. some (codes "/")) g).state)
      (read_group digest_of files files (λ source. some (codes "/")) (group nhk (1 ∷ 3 ∷ [])))
read_group-IsRead_example =
    read_group-IsRead 3 digest_of files files (λ source. some (codes "/")) (group nhk (1 ∷ 3 ∷ []))
      (omega arith, (omega arith, tt)) (omega arith)
