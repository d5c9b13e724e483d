-- ===== src/Pack/Build/Restore/Resumed.antt =====
-- The whole of `_restore_partial_build`: it comes back to what the build had.
use yomitan_audio_fast.Prelude.{
  ℕ, ◌+◌, ◌^◌, ◌<◌, ◌≡◌, ◌∙◌, refl, sym, ap, List, [], ◌∷◌, Option, none, some, true, length, All,
  All-imp, arith, map,
}
use yomitan_audio_fast.Prelude.Text.{Text, text_eq_refl}
use yomitan_audio_fast.Bytes.{Bytes}
use yomitan_audio_fast.Pack.{record_at}
use yomitan_audio_fast.Pack.Groups.{PackRow, AudioGroup, GroupKey, group_rows}
use yomitan_audio_fast.Pack.Build.Consume.{
  ReadResult, Counters, BuildState, new_build, consume, consume_all,
}
use yomitan_audio_fast.Pack.Build.Stored.Sound.{IsSound, IsResult}
use yomitan_audio_fast.Pack.Build.Stored.Kept.{consume-Consumed}
use yomitan_audio_fast.Pack.Build.Stored.Built.{
  total_size, HasDistinctRows, consume_all-Keeps, consume-room, new_build-IsSound, length-new_build,
  All_trans,
}
use yomitan_audio_fast.Pack.Build.Restore.State.{
  Restoring, Checkpoint, restored, start_restore, same_key, same_counters,
}
use yomitan_audio_fast.Pack.Build.Restore.{
  restore_loop, restore_group, last_group, check_restored, restore_partial_build, restore_groups,
  resumed, checkpoint_of,
}
use yomitan_audio_fast.Pack.Build.Restore.Matches.{Matches}
use yomitan_audio_fast.Pack.Build.Restore.Turn.{IsHashed}
use yomitan_audio_fast.Pack.Build.Restore.Reach.{restore_group-Reaches}

restore_loop_next :
    (blake2b : Bytes → Bytes) (source_state : AudioGroup → Bytes) (index pack : Bytes)
    (group : AudioGroup) (groups : List AudioGroup) (acc next : Restoring)
    → restore_group blake2b source_state index pack (length pack) group acc ≡ restored next
    → restore_loop blake2b source_state index pack (length pack) (group ∷ groups) acc
      ≡ restore_loop blake2b source_state index pack (length pack) groups next
unfolding restore_loop
restore_loop_next blake2b source_state index pack group groups acc next h =
    rw (restore_loop, h) refl

module _ (maximum_id : ℕ) (blake2b : Bytes → Bytes) (source_state : AudioGroup → Bytes) where
  -- a result of `_read_group`, for a group of the table and a source that has not changed since
  pub record IsRead (r : ReadResult) : Type 0 where
    pub result : IsResult maximum_id r
    pub some_row : 0 < length r.group.row_ids
    pub token : r.source_state ≡ source_state r.group
    pub hashed : IsHashed blake2b r.mime_id r.content r.digest

  -- the rows of the groups have the same records in both
  abbrev pub Agree : Bytes → Bytes → List ReadResult → Type 0
  Agree index other = All (λ r. All (λ id. record_at index id ≡ record_at other id) r.group.row_ids)

  pub IsRead-IsResult :
      (results : List ReadResult) → All IsRead results → All (IsResult maximum_id) results
  IsRead-IsResult results = All-imp IsRead (IsResult maximum_id) results (λ r h. h.result)

  pub restore_loop-Matches :
      (index pack : Bytes) (results : List ReadResult) (s : BuildState) (acc : Restoring)
      → All IsRead results
      → HasDistinctRows results
      → IsSound maximum_id s
      → length s.pack + total_size results < 256 ^ 8
      → Matches blake2b pack s acc
      → Agree index (consume_all results s).index results
      → pack ≡ (consume_all results s).pack
      → (next : Restoring) × (restore_loop blake2b source_state index pack
            (length pack)
            (map (λ r. r.group) results)
            acc
          ≡ restored next)
        × Matches blake2b pack (consume_all results s) next
  unfolding restore_loop consume_all
  restore_loop-Matches index pack [] s acc read distinct h room m agree e = (acc, refl, m)
  restore_loop-Matches index pack (r ∷ results) s acc read distinct h room m agree e =
      let fine : IsResult maximum_id r = (read.0).result in
      let c = consume-Consumed maximum_id r fine s h (omega arith) in
      let more = consume-room maximum_id r s (total_size results) fine h room in
      let k =
        consume_all-Keeps maximum_id results r (consume r s) (IsRead-IsResult results read.1)
          c.sound more distinct.0 in
      let (next, run, here) =
        restore_group-Reaches blake2b source_state index pack r (read.0).some_row maximum_id fine s
          acc k.added (read.0).token h (read.0).hashed (omega arith) m
          (All_trans (record_at (consume r s).index)
            (record_at (consume_all results (consume r s)).index) (record_at index) r.group.row_ids
            k.same agree.0)
          (e ∙ k.pack) in
      let (last, rest, there) =
        restore_loop-Matches index pack results (consume r s) next read.1 distinct.1 c.sound more
          here agree.1 e in
      (
        last,
        restore_loop_next blake2b source_state index pack r.group (map (λ q. q.group) results) acc
              next run
            ∙ rest,
        there,
      )

restore_groups-run :
    (blake2b : Bytes → Bytes) (sha256 : Bytes → Text) (source_state : AudioGroup → Bytes)
    (index pack : Bytes) (checkpoint : Checkpoint) (db_size db_mtime_ns : ℕ)
    (groups : List AudioGroup) (acc : Restoring)
    → restore_loop blake2b source_state index pack checkpoint.pack_bytes groups
        (start_restore db_size db_mtime_ns)
      ≡ restored acc
    → restore_groups blake2b sha256 source_state index pack checkpoint db_size db_mtime_ns groups
      ≡ check_restored sha256 checkpoint (last_group groups) acc
unfolding restore_groups check_restored
restore_groups-run blake2b sha256 source_state index pack checkpoint db_size db_mtime_ns groups acc
      run =
    rw (restore_groups, run) refl

same_counters_refl : (c : Counters) → same_counters c c ≡ true
unfolding same_counters
same_counters_refl c = ground arith

same_key_refl : (key : Option GroupKey) → same_key key key ≡ true
same_key_refl none = refl
same_key_refl (some key) = rw (text_eq_refl key.0, text_eq_refl key.1) refl

module _ (maximum_id : ℕ) (blake2b : Bytes → Bytes) (source_state : AudioGroup → Bytes) where
  start-Matches :
      (pack : Bytes) (db_size db_mtime_ns : ℕ)
      → Matches blake2b pack
          (new_build db_size db_mtime_ns maximum_id)
          (start_restore db_size db_mtime_ns)
  unfolding new_build
  start-Matches pack db_size db_mtime_ns = record {
    counters = refl;
    regions = refl;
    version_text = refl;
    source_text = refl;
    known = λ digest size. tt;
    fresh = λ offset after. (refl, refl);
    digests = λ offset size digest e. ground arith;
  }

  check_restored-Matches :
      (sha256 : Bytes → Text) (last_key : Option GroupKey) (pack : Bytes) (s : BuildState)
      (acc : Restoring)
      → Matches blake2b pack s acc
      → check_restored sha256 (checkpoint_of sha256 last_key s) last_key acc ≡ restored acc
  unfolding check_restored
  check_restored-Matches sha256 last_key pack s acc m =
      rw
        (
          m.counters,
          m.source_text,
          same_key_refl last_key,
          same_counters_refl s.counters,
          text_eq_refl (sha256 s.source_text),
        )
        refl

  resumed-Matches :
      (index pack : Bytes) (s : BuildState) (acc : Restoring)
      → Matches blake2b pack s acc
      → pack ≡ s.pack
      → resumed acc index pack ≡ record s { index = index }
  resumed-Matches index pack s acc m e =
      rw (m.counters, m.regions, m.version_text, m.source_text, e) refl

  module _ (sha256 : Bytes → Text) (db_size db_mtime_ns : ℕ) (table : List PackRow)
      (done : List ReadResult) (last_key : Option GroupKey) where
    -- the build when it wrote the checkpoint
    abbrev pub reached : BuildState
    reached = consume_all done (new_build db_size db_mtime_ns maximum_id)

    pub restore_partial_build-resumed :
        (index : Bytes)
        → All (IsRead maximum_id blake2b source_state) done
        → HasDistinctRows done
        → 64 + total_size done < 256 ^ 8
        → map (λ r. r.group) done ≡ group_rows none last_key table
        → last_group (map (λ r. r.group) done) ≡ last_key
        → Agree maximum_id blake2b source_state index reached.index done
        → (acc : Restoring) × (restore_partial_build blake2b sha256 source_state index reached.pack
              (checkpoint_of sha256 last_key reached)
              db_size
              db_mtime_ns
              table
            ≡ restored acc)
          × (resumed acc index reached.pack ≡ record reached { index = index })
    restore_partial_build-resumed index read distinct room groups last agree =
        let (acc, run, m) =
          restore_loop-Matches maximum_id blake2b source_state index reached.pack done
            (new_build db_size db_mtime_ns maximum_id) (start_restore db_size db_mtime_ns) read
            distinct (new_build-IsSound maximum_id db_size db_mtime_ns)
            (rw (length-new_build maximum_id db_size db_mtime_ns) room)
            (start-Matches reached.pack db_size db_mtime_ns) agree refl in
        (
          acc,
          ap
                (restore_groups blake2b sha256 source_state index reached.pack
                  (checkpoint_of sha256 last_key reached) db_size db_mtime_ns)
                (sym groups)
              ∙ restore_groups-run blake2b sha256 source_state index reached.pack
                  (checkpoint_of sha256 last_key reached) db_size db_mtime_ns
                  (map (λ r. r.group) done) acc run
              ∙ rw last (check_restored-Matches sha256 last_key reached.pack reached acc m),
          resumed-Matches index reached.pack reached acc m refl,
        )
