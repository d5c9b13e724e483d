-- ===== src/Pack/Build/Restart.antt =====
-- An interrupted build that is started again (anki-addon/fast_pack.py: `_build_audio_pack_locked`).
use mathlib.Core.Path.{ap₂}
use yomitan_audio_fast.Prelude.{
  some, sym, ◌∙◌, ℕ, ◌+◌, ◌^◌, ◌<◌, ◌≡◌, refl, ap, List, [], ◌∷◌, ◌++◌, none, length, All, All-imp,
  arith, map, take, take-append,
}
use yomitan_audio_fast.Prelude.Text.{Text}
use yomitan_audio_fast.Bytes.{Bytes}
use yomitan_audio_fast.Pack.{record_at}
use yomitan_audio_fast.Pack.Index.{index_size}
use yomitan_audio_fast.Pack.Groups.Split.{group_rows-split}
use yomitan_audio_fast.Pack.Groups.{PackRow, AudioGroup, GroupKey, group_rows}
use yomitan_audio_fast.Pack.Build.Consume.{ReadResult, BuildState, new_build, consume, consume_all}
use yomitan_audio_fast.Pack.Build.Stored.Sound.{IsSound, IsResult}
use yomitan_audio_fast.Pack.Build.Stored.Kept.{consume-Consumed}
use yomitan_audio_fast.Pack.Build.Stored.Built.{
  total_size, HasDistinctRows, consume_all-IsSound, consume-room, new_build-IsSound,
  length-new_build,
}
use yomitan_audio_fast.Pack.Build.Restore.State.{Restoring, restored}
use yomitan_audio_fast.Pack.Build.Restore.{
  last_group, restore_partial_build, resumed, checkpoint_of,
}
use yomitan_audio_fast.Pack.Build.Restore.Resumed.{
  IsRead, Agree, IsRead-IsResult, restore_partial_build-resumed,
}
use yomitan_audio_fast.Pack.Build.Renewed.{AllRenewed, consume_all-AllRenewed}

consume_all-append :
    (xs ys : List ReadResult) (s : BuildState)
    → consume_all (xs ++ ys) s ≡ consume_all ys (consume_all xs s)
unfolding consume_all
consume_all-append [] ys s = refl
consume_all-append (x ∷ xs) ys s = consume_all-append xs ys (consume x s)

All-append : {A : Type 0} (P : A → Type 0) (xs ys : List A) → All P xs → All P ys → All P (xs ++ ys)
All-append P [] ys h k = k
All-append P (x ∷ xs) ys h k = (h.0, All-append P xs ys h.1 k)

-- Two builds are the same: their packs, what they know, what their hashes were fed, and the records of the
-- rows of these results.
pub record SameBuild (results : List ReadResult) (s s' : BuildState) : Type 0 where
  pub pack : s'.pack ≡ s.pack
  pub regions : s'.regions ≡ s.regions
  pub counters : s'.counters ≡ s.counters
  pub version_text : s'.version_text ≡ s.version_text
  pub source_text : s'.source_text ≡ s.source_text
  pub rows :
      All (λ r. All (λ id. record_at s'.index id ≡ record_at s.index id) r.group.row_ids) results

-- how much of the pack the checkpoint's build has added
total_size-append :
    (maximum_id : ℕ) (done rest : List ReadResult) (s : BuildState)
    → All (IsResult maximum_id) done
    → IsSound maximum_id s
    → length s.pack + (total_size done + total_size rest) < 256 ^ 8
    → length (consume_all done s).pack + total_size rest < 256 ^ 8
unfolding consume_all
total_size-append maximum_id [] rest s fine h room = omega (arith, room)
total_size-append maximum_id (r ∷ done) rest s fine h room =
    total_size-append maximum_id done rest (consume r s) fine.1
      (consume-Consumed maximum_id r fine.0 s h (omega arith)).sound
      (consume-room maximum_id r s (total_size done + total_size rest) fine.0 h (omega arith))

AllRenewed-SameBuild :
    {maximum_id : ℕ} (done rest : List ReadResult) (t s s' : BuildState) (index : Bytes)
    → AllRenewed maximum_id rest t.index index s s'
    → All (λ r. All (λ id. record_at index id ≡ record_at t.index id) r.group.row_ids) done
    → SameBuild (done ++ rest) s s'
AllRenewed-SameBuild done rest t s s' index a agree = record {
  pack = ap (λ u. u.pack) a.same;
  regions = ap (λ u. u.regions) a.same;
  counters = ap (λ u. u.counters) a.same;
  version_text = ap (λ u. u.version_text) a.same;
  source_text = ap (λ u. u.source_text) a.same;
  rows =
      All-append _ done rest
        (All-imp _ _ done (λ r h. All-imp _ _ r.group.row_ids (λ id e. a.kept id e) h) agree)
        a.rows;
}

map_append :
    (xs ys : List ReadResult)
    → map (λ r. r.group) (xs ++ ys) ≡ map (λ r. r.group) xs ++ map (λ r. r.group) ys
map_append [] ys = refl
map_append (x ∷ xs) ys = ap (λ l. x.group ∷ l) (map_append xs ys)

module _ (maximum_id : ℕ) (blake2b : Bytes → Bytes) (source_state : AudioGroup → Bytes)
    (sha256 : Bytes → Text) (db_size db_mtime_ns : ℕ) (table : List PackRow)
    (done rest : List ReadResult) (key : GroupKey) where
  abbrev pub checkpointed : BuildState
  checkpointed = consume_all done (new_build db_size db_mtime_ns maximum_id)

  -- the pack's file, cut back to what the checkpoint says
  abbrev pub truncated : Bytes → Bytes
  truncated tail = take (length checkpointed.pack) (checkpointed.pack ++ tail)

  -- A build of groups with distinct rows is interrupted at any moment after it wrote a checkpoint: the pack
  -- file may be longer by then, and in the index only the records of the groups before the checkpoint need
  -- be as they were. If the table's groups up to the checkpoint's key and the state of their source files
  -- are still the same, then the restart accepts the checkpoint; those groups and the groups after the key
  -- are all the groups of the table; and with the results for the latter the restarted build ends with the
  -- same pack, counters, known regions, version and source state as the build that is never interrupted,
  -- and with the same record for the rows of every group.
  pub restart-SameBuild :
      (index tail : Bytes)
      → All (IsRead maximum_id blake2b source_state) done
      → All (IsResult maximum_id) rest
      → HasDistinctRows done
      → 64 + (total_size done + total_size rest) < 256 ^ 8
      → map (λ r. r.group) done ≡ group_rows none (some key) table
      → map (λ r. r.group) rest ≡ group_rows (some key) none table
      → last_group (map (λ r. r.group) done) ≡ some key
      → length index ≡ index_size maximum_id
      → Agree maximum_id blake2b source_state index checkpointed.index done
      → (acc : Restoring) × (restore_partial_build blake2b sha256 source_state index
            (truncated tail)
            (checkpoint_of sha256 (some key) checkpointed)
            db_size
            db_mtime_ns
            table
          ≡ restored acc)
        × (map (λ r. r.group) (done ++ rest) ≡ group_rows none none table)
        × SameBuild
            (done ++ rest)
            (consume_all (done ++ rest) (new_build db_size db_mtime_ns maximum_id))
            (consume_all rest (resumed acc index (truncated tail)))
  restart-SameBuild index tail read fine distinct room before after last size agree =
      let start = new_build-IsSound maximum_id db_size db_mtime_ns in
      let results = IsRead-IsResult maximum_id blake2b source_state done read in
      let more : 64 + total_size done < 256 ^ 8 = omega arith in
      let sound =
        consume_all-IsSound maximum_id done (new_build db_size db_mtime_ns maximum_id) results start
          (rw (length-new_build maximum_id db_size db_mtime_ns) more) in
      let (acc, run, same) =
        restore_partial_build-resumed maximum_id blake2b source_state sha256 db_size db_mtime_ns
          table done (some key) index read distinct more before last agree in
      let a = consume_all-AllRenewed maximum_id rest checkpointed index fine sound size (
        total_size-append maximum_id done rest (new_build db_size db_mtime_ns maximum_id) results
          start (rw (length-new_build maximum_id db_size db_mtime_ns) room)) in
      (
        acc,
        rw (take-append checkpointed.pack tail) run,
        map_append done rest ∙ ap₂ (λ x y. x ++ y) before after ∙ sym (group_rows-split key table),
        rw
            (
              take-append checkpointed.pack tail,
              same,
              consume_all-append done rest (new_build db_size db_mtime_ns maximum_id),
            )
            (AllRenewed-SameBuild done rest checkpointed (consume_all rest checkpointed) _ index a
              agree),
      )
