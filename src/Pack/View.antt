-- ===== src/Pack/View.antt =====
-- What `get` returns lies inside the pack, so a view of it is exactly the part of the recording asked for.
use yomitan_audio_fast.Prelude.{ℕ, ◌+◌, ◌≤◌, ◌<◌, ◌≡◌, ◌∙◌, ap, sym, some, arith, length}
use yomitan_audio_fast.Prelude.Int.{ℤ, pos, negsuc}
use yomitan_audio_fast.Bytes.{slice}
use yomitan_audio_fast.Bytes.Laws.{length-slice, slice-slice}
use yomitan_audio_fast.Pack.{AudioPack, PackedAudio, get, view}

-- a region of the packed file, not empty and after its header
pub record IsInside (p : AudioPack) (audio : PackedAudio) : Type 0 where
  pub after_header : p.minimum_pack_offset ≤ audio.offset
  pub nonempty : 0 < audio.length
  pub within : audio.offset + audio.length ≤ length p.pack
  pub known_id : audio.audio_id ≤ p.maximum_id

-- Every recording that `get` returns is a non-empty region of the packed file behind its header, and its
-- row id is at most the highest.
pub get-IsInside :
    (p : AudioPack) (id : ℤ) {audio : PackedAudio} → get p id ≡ some audio → IsInside p audio
unfolding get
get-IsInside p (negsuc n) e = absurd (ground arith)
get-IsInside p (pos n) e = ground arith

-- For a recording that `get` returned, a view of a part of it has the length asked for, and its bytes are
-- those of that part of the whole recording.
pub view-part :
    (p : AudioPack) (id : ℤ) (audio : PackedAudio) (start size : ℕ)
    → get p id ≡ some audio
    → start + size ≤ audio.length
    → (length (view p audio start size) ≡ size)
      × (view p audio start size ≡ slice start size (view p audio 0 audio.length))
view-part p id audio start size e h =
    let inside = get-IsInside p id e in
    (
      length-slice (audio.offset + start) size p.pack (omega (arith, inside.within)),
      sym (
          slice-slice start size (audio.offset + 0) audio.length p.pack h
          ∙ ap (λ k. slice k size p.pack) plus_zero),
    )
  where
    plus_zero : audio.offset + 0 + start ≡ audio.offset + start
    plus_zero = omega arith
