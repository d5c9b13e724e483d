-- ===== src/Tests/Cleanup.antt =====
-- A loose file and the recording of four bytes in a pack.
use yomitan_audio_fast.Prelude.{◌≡◌, ◌↔◌, refl, [], ◌∷◌, take}
use yomitan_audio_fast.Prelude.Int.{pos}
use yomitan_audio_fast.Prelude.Text.{text_eq}
use yomitan_audio_fast.Bytes.{Bytes, zeros}
use yomitan_audio_fast.Tests.Pack.{small, audio, get-small}
use yomitan_audio_fast.Cleanup.Compare.{
  FileState, verified, compare_chunks, compare_with_pack, mismatch,
}
use yomitan_audio_fast.Cleanup.Compare.Sound.{IsVerified, compare_with_pack_iff}

abbrev state : FileState
state = record { device = 1; inode = 2; mode = 0x81a4; size = 4; mtime_ns = 5; ctime_ns = 6 }

abbrev loose : Bytes
loose = 1 ∷ 2 ∷ 3 ∷ 4 ∷ []

-- chunks of three bytes, and a difference in the second one
compare_chunks-mismatch : compare_chunks 3 (1 ∷ 2 ∷ 3 ∷ 5 ∷ []) small audio 5 0 [] ≡ mismatch
unfolding compare_chunks text_eq zeros
compare_chunks-mismatch = refl

compare_with_pack_iff_example :
    (compare_with_pack (take 2) state state state loose small audio ≡ verified (1 ∷ 2 ∷ []))
    ↔ IsVerified (take 2) state state state loose small audio (1 ∷ 2 ∷ [])
compare_with_pack_iff_example =
    compare_with_pack_iff (take 2) state state state loose small audio (pos 1) (1 ∷ 2 ∷ [])
      get-small
