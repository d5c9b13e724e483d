-- ===== src/Cleanup/Compare.antt =====
-- The comparison of a loose file with the pack (anki-addon/cleanup.py: `_FileState`, `_same_moved_file`,
-- `_compare_with_pack`). What is read of the file is the list of its bytes; a file that cannot be opened,
-- cancelling and the reports of progress are left out.
pub mod Whole
pub mod Sound
use Prim.Native.Nat.{min}
use yomitan_audio_fast.Prelude.{
  ℕ, zero, suc, ◌+◌, ◌-◌, ◌*◌, ◌/◌, ◌%◌, [], ◌++◌, Bool, ◌==◌, ◌&&◌, ◌||◌, not, ltb, length,
  if◌then◌else◌,
}
use yomitan_audio_fast.Prelude.Text.{Text, text_eq}
use yomitan_audio_fast.Bytes.{Bytes, slice}
use yomitan_audio_fast.Pack.{AudioPack, PackedAudio, view}

-- `_FileState`
pub record FileState : Type 0 where
  pub device : ℕ
  pub inode : ℕ
  pub mode : ℕ
  pub size : ℕ
  pub mtime_ns : ℕ
  pub ctime_ns : ℕ

-- `_same_moved_file`
unfoldable pub same_moved_file : FileState → FileState → Bool
same_moved_file before after =
    before.device == after.device
    && (before.inode == after.inode
        && (before.mode == after.mode
            && (before.size == after.size && before.mtime_ns == after.mtime_ns)))

-- opened_state == expected_state
unfoldable pub same_state : FileState → FileState → Bool
same_state a b = same_moved_file a b && a.ctime_ns == b.ctime_ns

-- stat.S_ISREG(mode): the format bits of the mode are those of a regular file
abbrev pub is_regular : ℕ → Bool
is_regular mode = mode / 0x1000 % 16 == 8

abbrev pub chunk_bytes : ℕ
chunk_bytes = 1024 * 1024

-- what the loop ends with: the bytes that the digest was fed, or `PackMismatchError`
pub data Chunks : Type 0 where
  same : Bytes → Chunks
  mismatch : Chunks
  unfinished : Chunks

-- the loop over the chunks, of a size `chunk`
unfoldable pub compare_chunks : ℕ → Bytes → AudioPack → PackedAudio → ℕ → ℕ → Bytes → Chunks
compare_chunks chunk file pack audio zero position fed = unfinished
compare_chunks chunk file pack audio (suc fuel) position fed =
    let count = min chunk (audio.length - position) in
    let loose = slice position count file in
    let rest = compare_chunks chunk file pack audio fuel (position + count) (fed ++ loose) in
    if ltb position audio.length
    then (if not (length loose == count) || not (text_eq loose (view pack audio position count))
        then mismatch
        else rest)
    else same fed

-- `verified` has the digest of what was read; the others are `LooseAudioChangedError` and
-- `PackMismatchError`.
pub data Comparison : Type 0 where
  verified : Text → Comparison
  changed : Comparison
  mismatched : Comparison
  not_finished : Comparison

-- the state after the loop, once it has found no difference
abbrev pub finish_comparison : (Bytes → Text) → FileState → FileState → Chunks → Comparison
finish_comparison sha256 expected final (same bytes) =
    if not (same_state final expected) then changed else verified (sha256 bytes)
finish_comparison sha256 expected final mismatch = mismatched
finish_comparison sha256 expected final unfinished = not_finished

-- `_compare_with_pack`, with the states when the file was opened and at the end
unfoldable pub compare_with_pack :
    (Bytes → Text)
    → FileState
    → FileState
    → FileState
    → Bytes
    → AudioPack
    → PackedAudio
    → Comparison
compare_with_pack sha256 expected opened final file pack audio =
    if not (same_state opened expected) || not (is_regular opened.mode)
    then changed
    else finish_comparison sha256 expected final
        (compare_chunks chunk_bytes file pack audio (suc audio.length) 0 [])
