-- ===== src/Cleanup/Compare/Sound.antt =====
-- What a comparison shows that finds no difference.
use mathlib.Core.Path.{subst}
use yomitan_audio_fast.Prelude.{
  suc, ◌≡◌, ◌↔◌, ◌∙◌, refl, ap, [], true, ◌||◌, not, length, arith, Bool-cases, inl, inr, some,
}
use yomitan_audio_fast.Prelude.Int.{ℤ}
use yomitan_audio_fast.Prelude.Text.{Text}
use yomitan_audio_fast.Bytes.{Bytes, slice}
use yomitan_audio_fast.Pack.{AudioPack, PackedAudio, get, view}
use yomitan_audio_fast.Pack.View.{view-part}
use yomitan_audio_fast.Cleanup.Compare.{
  FileState, same_state, same_moved_file, is_regular, chunk_bytes, Chunks, same, mismatch,
  unfinished, Comparison, verified, changed, mismatched, not_finished, finish_comparison,
  compare_with_pack,
}
use yomitan_audio_fast.Cleanup.Compare.Whole.{
  IfSame, Read, compare_chunks-Read, compare_chunks-same,
}

same_state_sound : (a b : FileState) → same_state a b ≡ true → a ≡ b
unfolding same_state same_moved_file
same_state_sound a b h =
    let device : a.device ≡ b.device = ground (arith, h) in
    let inode : a.inode ≡ b.inode = ground (arith, h) in
    let mode : a.mode ≡ b.mode = ground (arith, h) in
    let size : a.size ≡ b.size = ground (arith, h) in
    let mtime_ns : a.mtime_ns ≡ b.mtime_ns = ground (arith, h) in
    let ctime_ns : a.ctime_ns ≡ b.ctime_ns = ground (arith, h) in
    λ i. record {
      device = device i;
      inode = inode i;
      mode = mode i;
      size = size i;
      mtime_ns = mtime_ns i;
      ctime_ns = ctime_ns i;
    }

same_state_refl : (a : FileState) → same_state a a ≡ true
unfolding same_state same_moved_file
same_state_refl a = ground arith

module _ (sha256 : Bytes → Text) (expected opened final : FileState) (file : Bytes)
    (pack : AudioPack) (audio : PackedAudio) where
  -- what a comparison that ends well has seen
  pub record IsVerified (digest : Text) : Type 0 where
    pub opened_as_expected : opened ≡ expected
    pub final_as_expected : final ≡ expected
    pub regular : is_regular opened.mode ≡ true
    pub content : slice 0 audio.length file ≡ view pack audio 0 audio.length
    pub digest_of_content : digest ≡ sha256 (slice 0 audio.length file)

  abbrev IfVerified : Comparison → Type 0
  IfVerified (verified digest) = IsVerified digest
  IfVerified changed = Unit
  IfVerified mismatched = Unit
  IfVerified not_finished = Unit

  finish_comparison-IfVerified :
      (chunks : Chunks)
      → opened ≡ expected
      → is_regular opened.mode ≡ true
      → IfSame (Read chunk_bytes file pack audio 0 audio.length []) chunks
      → IfVerified (finish_comparison sha256 expected final chunks)
  finish_comparison-IfVerified mismatch o regular h = tt
  finish_comparison-IfVerified unfinished o regular h = tt
  finish_comparison-IfVerified (same out) o regular (read, content) =
      elim (Bool-cases (same_state final expected)) [
        | inr e ↦ rw e tt
        | inl e ↦ rw e (record {
          opened_as_expected = o;
          final_as_expected = same_state_sound final expected e;
          regular = regular;
          content = content;
          digest_of_content = ap sha256 read;
        })
      ]

  compare_with_pack-IfVerified :
      IfVerified (compare_with_pack sha256 expected opened final file pack audio)
  unfolding compare_with_pack
  compare_with_pack-IfVerified =
      elim (Bool-cases (not (same_state opened expected) || not (is_regular opened.mode))) [
        | inl e ↦ rw e tt
        | inr e ↦ rw e (
            finish_comparison-IfVerified _ (same_state_sound opened expected (ground (arith, e)))
              (ground (arith, e))
              (compare_chunks-Read chunk_bytes file pack audio (suc audio.length) 0 audio.length []
                (omega arith)))
      ]

  compare_with_pack-verified :
      (digest : Text)
      → IsVerified digest
      → length (slice 0 audio.length file) ≡ audio.length
      → compare_with_pack sha256 expected opened final file pack audio ≡ verified digest
  unfolding compare_with_pack
  compare_with_pack-verified digest v whole =
      rw
        (
          v.regular,
          v.opened_as_expected,
          v.final_as_expected,
          same_state_refl expected,
          compare_chunks-same chunk_bytes file pack audio (suc audio.length) 0 audio.length []
              (omega arith) (omega arith) (omega arith) whole v.content,
          v.digest_of_content,
        )
        (rw (same_state_refl expected) refl)

  -- A loose file is verified against a recording that the pack returned, with a digest, exactly if it was a
  -- regular file in the expected state when it was opened and in that state at the end, the bytes read from
  -- it are those of the whole recording, and the digest is theirs.
  pub compare_with_pack_iff :
      (id : ℤ) (digest : Text)
      → get pack id ≡ some audio
      → (compare_with_pack sha256 expected opened final file pack audio ≡ verified digest)
        ↔ IsVerified digest
  compare_with_pack_iff id digest e = (
    (λ h. subst IfVerified h compare_with_pack-IfVerified),
    λ v.
        compare_with_pack-verified digest v
          (ap length v.content ∙ (view-part pack id audio 0 audio.length e (omega arith)).0),
  )
