-- ===== src/Pack/Build/Restore/Checked.antt =====
-- What a turn of `_restore_partial_build`'s loop has checked if it does not raise an error.
use yomitan_audio_fast.Prelude.{
  ℕ, ◌+◌, ◌*◌, ◌%◌, ◌≤◌, ◌<◌, ◌≡◌, ◌⊎◌, refl, List, [], ◌∷◌, ◌++◌, Option, none, some, true, false,
  ◌==◌, length, arith, Bool-cases, inl, inr, is_some,
}
use yomitan_audio_fast.Bytes.{Bytes, slice}
use yomitan_audio_fast.Pack.{record_at}
use yomitan_audio_fast.Pack.Format.{IndexRecord, mime_by_id}
use yomitan_audio_fast.Pack.Groups.{AudioGroup}
use yomitan_audio_fast.Pack.Build.Stored.Records.{no_record}
use yomitan_audio_fast.Pack.Build.Stored.Sound.{HasRecords}
use yomitan_audio_fast.Pack.Build.Restore.State.{
  Restoring, Restored, restored, refused, same_record, all_same, is_bad, begin_restore, length_or,
  restore_region, remember_length, remember_digest,
}
use yomitan_audio_fast.Pack.Build.Restore.{
  read_digest, restore_valid, restore_record, restore_rows, restore_group,
}

abbrev pub IfRestored : (Restoring → Type 0) → Restored → Type 0
IfRestored P (restored acc) = P acc
IfRestored P (refused e) = Unit

same_record_sound : (r q : IndexRecord) → same_record r q ≡ true → r ≡ q
unfolding same_record
same_record_sound r q h =
    let offset : r.offset ≡ q.offset = ground (arith, h) in
    let size : r.length ≡ q.length = ground (arith, h) in
    let mime_id : r.mime_id ≡ q.mime_id = ground (arith, h) in
    let flags : r.flags ≡ q.flags = ground (arith, h) in
    λ i. record { offset = offset i; length = size i; mime_id = mime_id i; flags = flags i }

-- a valid record of a recording that lies in the pack
pub record IsUsable (pack_bytes : ℕ) (r : IndexRecord) : Type 0 where
  pub known : is_some (mime_by_id r.mime_id) ≡ true
  pub full : 0 < r.length
  pub small : r.length ≤ 64 * 1024 * 1024
  pub after : 64 ≤ r.offset
  pub inside : r.offset + r.length ≤ pack_bytes

is_bad-IsUsable :
    (pack_bytes : ℕ) (r : IndexRecord) → is_bad pack_bytes r ≡ false → IsUsable pack_bytes r
unfolding is_bad
is_bad-IsUsable pack_bytes r h = record {
  known = ground arith;
  full = ground arith;
  small = ground arith;
  after = ground arith;
  inside = ground arith;
}

-- The rows of the group have one record: that of no recording, or that of one in the pack.
abbrev pub IsPlaced : Bytes → ℕ → AudioGroup → Type 0
IsPlaced index pack_bytes group =
    (r : IndexRecord) × HasRecords index group.row_ids r × ((r ≡ no_record) ⊎ IsUsable pack_bytes r)

all_same_sound :
    (index : Bytes) (r : IndexRecord) (ids : List ℕ)
    → all_same index r ids ≡ true
    → HasRecords index ids r
unfolding all_same
all_same_sound index r [] h = tt
all_same_sound index r (id ∷ ids) h = (
  same_record_sound (record_at index id) r (ground (arith, h)),
  all_same_sound index r ids (ground (arith, h)),
)

restore_region-source_text :
    (group : AudioGroup) (digest : Bytes) (offset size : ℕ) (acc : Restoring)
    → (restore_region group digest offset size acc).source_text ≡ acc.source_text
restore_region-source_text group digest offset size acc =
    elim (Bool-cases (acc.seen_offsets offset)) [ inl e ↦ rw e refl | inr e ↦ rw e refl ]

module _ (blake2b : Bytes → Bytes) (source_state : AudioGroup → Bytes) (index pack : Bytes)
    (pack_bytes : ℕ) where
  -- the turn adds nothing to the source's text but what it had at its start, and `Q` holds
  abbrev Keeps : Type 0 → Restoring → Restored → Type 0
  Keeps Q acc = IfRestored (λ next. (next.source_text ≡ acc.source_text) × Q)

  read_digest-Keeps :
      (Q : Type 0) (group : AudioGroup) (offset size : ℕ) (digest : Option Bytes) (acc : Restoring)
      → Q
      → Keeps Q acc
          (read_digest blake2b source_state index pack pack_bytes group offset size digest acc)
  unfolding read_digest
  read_digest-Keeps Q group offset size (some digest) acc q =
      (restore_region-source_text group digest offset size acc, q)
  read_digest-Keeps Q group offset size none acc q =
      elim (Bool-cases (length (slice offset size pack) == size)) [
        | inl e ↦ rw e (
          restore_region-source_text group (blake2b (slice offset size pack)) offset size
              (remember_digest offset size (blake2b (slice offset size pack)) acc),
          q,
        )
        | inr e ↦ rw e tt
      ]

  restore_valid-Keeps :
      (Q : Type 0) (group : AudioGroup) (r : IndexRecord) (acc : Restoring)
      → (IsUsable pack_bytes r → Q)
      → Keeps Q acc (restore_valid blake2b source_state index pack pack_bytes group r acc)
  unfolding restore_valid
  restore_valid-Keeps Q group r acc q = elim (Bool-cases (is_bad pack_bytes r)) [
    | inl e ↦ rw e tt
    | inr e ↦
        rw e (elim (Bool-cases (length_or (acc.length_by_offset r.offset) r.length == r.length)) [
          | inl same ↦ rw same (
              read_digest-Keeps Q group r.offset r.length (acc.digest_by_record r.offset r.length)
                (remember_length r.offset r.length acc) (q (is_bad-IsUsable pack_bytes r e)))
          | inr other ↦ rw other tt
        ])
  ]

  restore_record-Keeps :
      (Q : Type 0) (group : AudioGroup) (r : IndexRecord) (acc : Restoring)
      → ((r ≡ no_record) ⊎ IsUsable pack_bytes r → Q)
      → Keeps Q acc (restore_record blake2b source_state index pack pack_bytes group r acc)
  unfolding restore_record
  restore_record-Keeps Q group r acc q = elim (Bool-cases (r.flags % 2 == 0)) [
    | inl e ↦ rw e (elim (Bool-cases (same_record r no_record)) [
      | inl same ↦ rw same (refl, q (inl (same_record_sound r no_record same)))
      | inr other ↦ rw other tt
    ])
    | inr e ↦ rw e (restore_valid-Keeps Q group r acc (λ h. q (inr h)))
  ]

  restore_rows-Keeps :
      (group : AudioGroup) (ids : List ℕ) (acc : Restoring)
      → Keeps
          ((r : IndexRecord) × HasRecords index ids r × ((r ≡ no_record) ⊎ IsUsable pack_bytes r))
          acc
          (restore_rows blake2b source_state index pack pack_bytes group ids acc)
  unfolding restore_rows
  restore_rows-Keeps group [] acc = tt
  restore_rows-Keeps group (id ∷ ids) acc =
      elim (Bool-cases (all_same index (record_at index id) (id ∷ ids))) [
        | inl e ↦ rw e (
            restore_record-Keeps _ group (record_at index id) acc (λ h.
              (record_at index id, all_same_sound index (record_at index id) (id ∷ ids) e, h)))
        | inr e ↦ rw e tt
      ]

  -- what a turn that succeeds adds
  abbrev pub Turned : AudioGroup → Restoring → Restored → Type 0
  Turned group acc = IfRestored (λ next.
      (next.source_text ≡ acc.source_text ++ source_state group) × IsPlaced index pack_bytes group)

  pub restore_group-Turned :
      (group : AudioGroup) (acc : Restoring)
      → Turned group acc (restore_group blake2b source_state index pack pack_bytes group acc)
  unfolding restore_group
  restore_group-Turned group acc =
      restore_rows-Keeps group group.row_ids (begin_restore group (source_state group) acc)
