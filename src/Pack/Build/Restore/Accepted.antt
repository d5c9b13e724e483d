-- ===== src/Pack/Build/Restore/Accepted.antt =====
-- What an accepted checkpoint shows, whatever is in the index, the pack and the checkpoint.
use mathlib.Core.Path.{subst}
use yomitan_audio_fast.Prelude.{
  ℕ, ◌≡◌, ◌∙◌, refl, sym, ap, List, [], ◌∷◌, ◌++◌, Option, none, some, true, All, arith, Bool-cases,
  inl, inr,
}
use mathlib.Core.List.{append-nil, append_assoc}
use yomitan_audio_fast.Prelude.Text.{Text, text_eq, text_eq_sound}
use yomitan_audio_fast.Bytes.{Bytes}
use yomitan_audio_fast.Pack.Groups.{PackRow, AudioGroup, GroupKey, group_rows}
use yomitan_audio_fast.Pack.Build.Consume.{Counters}
use yomitan_audio_fast.Pack.Build.Restore.State.{
  Restoring, Restored, restored, refused, Checkpoint, start_restore, and_then, same_key,
  same_counters,
}
use yomitan_audio_fast.Pack.Build.Restore.{
  restore_group, restore_loop, restore_groups, restore_partial_build, check_restored, last_group,
}
use yomitan_audio_fast.Pack.Build.Restore.Checked.{
  IfRestored, IsPlaced, Turned, restore_group-Turned,
}

same_counters_sound : (a b : Counters) → same_counters a b ≡ true → a ≡ b
unfolding same_counters
same_counters_sound a b h =
    let paths : a.processed_source_paths ≡ b.processed_source_paths = ground (arith, h) in
    let rows : a.processed_rows ≡ b.processed_rows = ground (arith, h) in
    let valid : a.valid_rows ≡ b.valid_rows = ground (arith, h) in
    let readable : a.readable_source_paths ≡ b.readable_source_paths = ground (arith, h) in
    let unique : a.unique_files ≡ b.unique_files = ground (arith, h) in
    let duplicates : a.content_duplicates ≡ b.content_duplicates = ground (arith, h) in
    let saved : a.deduplicated_bytes_saved ≡ b.deduplicated_bytes_saved = ground (arith, h) in
    let missing : a.missing_files ≡ b.missing_files = ground (arith, h) in
    λ i. record {
      processed_source_paths = paths i;
      processed_rows = rows i;
      valid_rows = valid i;
      readable_source_paths = readable i;
      unique_files = unique i;
      content_duplicates = duplicates i;
      deduplicated_bytes_saved = saved i;
      missing_files = missing i;
    }

same_key_sound : (a b : Option GroupKey) → same_key a b ≡ true → a ≡ b
same_key_sound none none h = refl
same_key_sound none (some b) h = cc
same_key_sound (some a) none h = cc
same_key_sound (some a) (some b) h =
    let source : a.0 ≡ b.0 = text_eq_sound a.0 b.0 (ground (arith, h)) in
    let file : a.1 ≡ b.1 = text_eq_sound a.1 b.1 (ground (arith, h)) in λ i. some (source i, file i)

-- the files' states, as they are fed to the hash
abbrev pub source_states : (AudioGroup → Bytes) → List AudioGroup → Bytes
source_states source_state [] = []
source_states source_state (g ∷ groups) = source_state g ++ source_states source_state groups

module _ (blake2b : Bytes → Bytes) (source_state : AudioGroup → Bytes) (index pack : Bytes)
    (pack_bytes : ℕ) where
  abbrev Looped : List AudioGroup → Restoring → Restored → Type 0
  Looped groups acc = IfRestored (λ last.
      (last.source_text ≡ acc.source_text ++ source_states source_state groups)
      × All (IsPlaced index pack_bytes) groups)

  later-Looped :
      (group : AudioGroup) (groups : List AudioGroup) (acc next : Restoring) (result : Restored)
      → Turned blake2b source_state index pack pack_bytes group acc (restored next)
      → Looped groups next result
      → Looped (group ∷ groups) acc result
  later-Looped group groups acc next (refused e) turned looped = tt
  later-Looped group groups acc next (restored last) (text, placed) (more, rest) = (
    more
        ∙ ap (λ t. t ++ source_states source_state groups) text
        ∙ append_assoc acc.source_text (source_state group) (source_states source_state groups),
    (placed, rest),
  )

  turn-Looped :
      (group : AudioGroup) (groups : List AudioGroup) (acc : Restoring) (result : Restored)
      (rest : Restoring → Restored)
      → Turned blake2b source_state index pack pack_bytes group acc result
      → ((next : Restoring) → Looped groups next (rest next))
      → Looped (group ∷ groups) acc (and_then result rest)
  turn-Looped group groups acc (restored next) rest turned looped =
      later-Looped group groups acc next (rest next) turned (looped next)
  turn-Looped group groups acc (refused e) rest turned looped = tt

  restore_loop-Looped :
      (groups : List AudioGroup) (acc : Restoring)
      → Looped groups acc (restore_loop blake2b source_state index pack pack_bytes groups acc)
  unfolding restore_loop
  restore_loop-Looped [] acc = (sym (append-nil acc.source_text), tt)
  restore_loop-Looped (group ∷ groups) acc =
      turn-Looped group groups acc
        (restore_group blake2b source_state index pack pack_bytes group acc)
        (λ next. restore_loop blake2b source_state index pack pack_bytes groups next)
        (restore_group-Turned blake2b source_state index pack pack_bytes group acc)
        (λ next. restore_loop-Looped groups next)

-- what is known of a checkpoint that was accepted
pub record IsAccepted (blake2b : Bytes → Bytes) (sha256 : Bytes → Text)
    (source_state : AudioGroup → Bytes) (index : Bytes) (checkpoint : Checkpoint)
    (groups : List AudioGroup) (acc : Restoring) : Type 0 where
  pub placed : All (IsPlaced index checkpoint.pack_bytes) groups
  pub sources : sha256 (source_states source_state groups) ≡ checkpoint.source_state_sha256
  pub counters : acc.counters ≡ checkpoint.counters
  pub boundary : last_group groups ≡ checkpoint.last_key

module _ (blake2b : Bytes → Bytes) (sha256 : Bytes → Text) (source_state : AudioGroup → Bytes)
    (index pack : Bytes) (checkpoint : Checkpoint) where
  check_restored-IsAccepted :
      (groups : List AudioGroup) (acc : Restoring)
      → acc.source_text ≡ source_states source_state groups
      → All (IsPlaced index checkpoint.pack_bytes) groups
      → IfRestored
          (IsAccepted blake2b sha256 source_state index checkpoint groups)
          (check_restored sha256 checkpoint (last_group groups) acc)
  unfolding check_restored
  check_restored-IsAccepted groups acc text placed =
      elim (Bool-cases (same_key (last_group groups) checkpoint.last_key)) [
        | inr e ↦ rw e tt
        | inl key ↦ rw key (elim (Bool-cases (same_counters acc.counters checkpoint.counters)) [
          | inr e ↦ rw e tt
          | inl counters ↦
              rw counters
                (elim (Bool-cases
                  (text_eq (sha256 acc.source_text) checkpoint.source_state_sha256)) [
                    | inr e ↦ rw e tt
                    | inl source ↦ rw source (record {
                      placed = placed;
                      sources =
                          ap sha256 (sym text)
                          ∙ text_eq_sound (sha256 acc.source_text) checkpoint.source_state_sha256
                              source;
                      counters = same_counters_sound acc.counters checkpoint.counters counters;
                      boundary = same_key_sound (last_group groups) checkpoint.last_key key;
                    })
                  ])
        ])
      ]

  Looped-IsAccepted :
      (groups : List AudioGroup) (db_size db_mtime_ns : ℕ) (result : Restored)
      → Looped blake2b source_state index pack checkpoint.pack_bytes groups
          (start_restore db_size db_mtime_ns)
          result
      → IfRestored
          (IsAccepted blake2b sha256 source_state index checkpoint groups)
          (and_then result (λ acc. check_restored sha256 checkpoint (last_group groups) acc))
  Looped-IsAccepted groups db_size db_mtime_ns (restored acc) (text, placed) =
      check_restored-IsAccepted groups acc text placed
  Looped-IsAccepted groups db_size db_mtime_ns (refused e) looped = tt

  restore_groups-IsAccepted :
      (groups : List AudioGroup) (db_size db_mtime_ns : ℕ)
      → IfRestored (IsAccepted blake2b sha256 source_state index checkpoint groups) (
          restore_groups blake2b sha256 source_state index pack checkpoint db_size db_mtime_ns
            groups)
  unfolding restore_groups
  restore_groups-IsAccepted groups db_size db_mtime_ns =
      Looped-IsAccepted groups db_size db_mtime_ns _ (
        restore_loop-Looped blake2b source_state index pack checkpoint.pack_bytes groups
          (start_restore db_size db_mtime_ns))

  -- If a restart accepts a checkpoint, then, whatever the index and the pack hold: the rows of each group up
  -- to the checkpoint's key have one record, which is empty or has a known type, a length between one byte
  -- and 64 MiB and a region behind the header and inside the checkpoint's pack; the states of the source
  -- files now have the hash of the checkpoint; and the restored counters and the last group's key are the
  -- checkpoint's.
  pub restore_partial_build-IsAccepted :
      (db_size db_mtime_ns : ℕ) (table : List PackRow) (acc : Restoring)
      → restore_partial_build blake2b sha256 source_state index pack checkpoint db_size db_mtime_ns
          table
        ≡ restored acc
      → IsAccepted blake2b sha256 source_state index checkpoint
          (group_rows none checkpoint.last_key table)
          acc
  restore_partial_build-IsAccepted db_size db_mtime_ns table acc e =
      subst
        (IfRestored (
          IsAccepted blake2b sha256 source_state index checkpoint
            (group_rows none checkpoint.last_key table)))
        e
        (restore_groups-IsAccepted (group_rows none checkpoint.last_key table) db_size db_mtime_ns)
