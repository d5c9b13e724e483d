-- ===== src/Cleanup/Compare/Whole.antt =====
-- The loop over the chunks reads and compares the whole recording.
use Prim.Native.Nat.{min}
use mathlib.Core.Path.{subst, ap₂}
use mathlib.Core.List.{append-nil, append_assoc}
use native.Mathlib.Nat.{zero-add, suc-add}
use yomitan_audio_fast.Prelude.{
  ℕ, zero, suc, ◌+◌, ◌-◌, ◌≤◌, ◌<◌, ◌≡◌, ◌∙◌, refl, sym, ap, [], ◌∷◌, ◌++◌, true, ◌==◌, ◌||◌, not,
  ltb, ltb→lt, length, take, drop, length-take, arith, Bool-cases, inl, inr,
}
use yomitan_audio_fast.Prelude.Text.{text_eq, text_eq_iff, text_eq_sound}
use yomitan_audio_fast.Bytes.{Bytes, slice}
use yomitan_audio_fast.Bytes.Laws.{slice-slice, length-slice, drop-drop}
use yomitan_audio_fast.Pack.{AudioPack, PackedAudio, view}
use yomitan_audio_fast.Cleanup.Compare.{Chunks, same, mismatch, unfinished, compare_chunks}

take_nil : (n : ℕ) → take {A = ℕ} n [] ≡ []
take_nil zero = refl
take_nil (suc n) = refl

take_split : (c r : ℕ) (m : Bytes) → take (c + r) m ≡ take c m ++ take r (drop c m)
take_split zero r m = rw zero-add refl
take_split (suc c) r [] = rw (take_nil (suc c + r), take_nil r) refl
take_split (suc c) r (x ∷ m) = rw suc-add (ap (λ l. x ∷ l) (take_split c r m))

slice_split : (p c r : ℕ) (m : Bytes) → slice p (c + r) m ≡ slice p c m ++ slice (p + c) r m
slice_split p c r m =
    take_split c r (drop p m) ∙ ap (λ l. take c (drop p m) ++ take r l) (drop-drop c p m)

slice_prefix : (p c r : ℕ) (m : Bytes) → c ≤ r → slice p c m ≡ slice 0 c (slice p r m)
slice_prefix p c r m h =
    let same_place : p + 0 ≡ p = omega arith in
    sym (slice-slice 0 c p r m (omega arith) ∙ ap (λ k. slice k c m) same_place)

==_of_eq : {a b : ℕ} → a ≡ b → (a == b) ≡ true
==_of_eq h = ground (arith, h)

text_eq_of_eq : {a b : Bytes} → a ≡ b → text_eq a b ≡ true
text_eq_of_eq {a} {b} h = (text_eq_iff a b).1 h

abbrev pub IfSame : (Bytes → Type 0) → Chunks → Type 0
IfSame P (same out) = P out
IfSame P mismatch = Unit
IfSame P unfinished = Unit

map_IfSame :
    {P Q : Bytes → Type 0} (c : Chunks) → ((out : Bytes) → P out → Q out) → IfSame P c → IfSame Q c
map_IfSame (same out) f h = f out h
map_IfSame mismatch f h = tt
map_IfSame unfinished f h = tt

module _ (chunk : ℕ) (file : Bytes) (pack : AudioPack) (audio : PackedAudio) where
  -- the rest of the file was read, and it is the rest of the recording
  abbrev pub Read : ℕ → ℕ → Bytes → Bytes → Type 0
  Read position rest fed out =
      (out ≡ fed ++ slice position rest file)
      × (slice position rest file ≡ view pack audio position rest)

  join-Read :
      (p c r : ℕ) (fed out : Bytes)
      → slice p c file ≡ view pack audio p c
      → Read (p + c) r (fed ++ slice p c file) out
      → Read p (c + r) fed out
  join-Read p c r fed out first (read, later) =
      let place : audio.offset + (p + c) ≡ audio.offset + p + c = omega arith in
      (
        read
            ∙ append_assoc fed (slice p c file) (slice (p + c) r file)
            ∙ ap (λ l. fed ++ l) (sym (slice_split p c r file)),
        slice_split p c r file
            ∙ ap₂ (λ x y. x ++ y) first (later ∙ ap (λ k. slice k r pack.pack) place)
            ∙ sym (slice_split (audio.offset + p) c r pack.pack),
      )

  pub compare_chunks-Read :
      (fuel position rest : ℕ) (fed : Bytes)
      → position + rest ≡ audio.length
      → IfSame (Read position rest fed) (compare_chunks chunk file pack audio fuel position fed)
  unfolding compare_chunks
  compare_chunks-Read zero position rest fed h = tt
  compare_chunks-Read (suc fuel) position rest fed h =
      elim (Bool-cases (ltb position audio.length)) [
        | inr e ↦
            let none_left : rest ≡ 0 = ground (arith, e) in
            rw (e, none_left) (sym (append-nil fed), refl)
        | inl e ↦
            let count = min chunk (audio.length - position) in
            let rejoined : count + (rest - count) ≡ rest = omega arith in
            rw e
              (elim (Bool-cases (
                not (length (slice position count file) == count)
                || not (text_eq (slice position count file) (view pack audio position count)))) [
                  | inl f ↦ rw f tt
                  | inr f ↦ rw f (
                      map_IfSame (compare_chunks chunk file pack audio fuel (position + count) _)
                        (λ out read.
                          subst (λ n. Read position n fed out) rejoined
                            (join-Read position count (rest - count) fed out
                              (text_eq_sound _ _ (ground (arith, f))) read))
                        (compare_chunks-Read fuel (position + count) (rest - count)
                          (fed ++ slice position count file) (omega arith)))
                ])
      ]

  pub compare_chunks-same :
      (fuel position rest : ℕ) (fed : Bytes)
      → 0 < chunk
      → rest < fuel
      → position + rest ≡ audio.length
      → length (slice position rest file) ≡ rest
      → slice position rest file ≡ view pack audio position rest
      → compare_chunks chunk file pack audio fuel position fed
        ≡ same (fed ++ slice position rest file)
  unfolding compare_chunks
  compare_chunks-same zero position rest fed some_chunk enough h whole e = absurd (omega arith)
  compare_chunks-same (suc fuel) position rest fed some_chunk enough h whole e =
      elim (Bool-cases (ltb position audio.length)) [
        | inr f ↦
            let none_left : rest ≡ 0 = ground (arith, f) in
            rw (f, none_left) (ap same (sym (append-nil fed)))
        | inl f ↦
            let count = min chunk (audio.length - position) in
            let rejoined : count + (rest - count) ≡ rest = omega arith in
            let size : length (slice position count file) ≡ count =
              rw (slice_prefix position count rest file (omega arith))
                (omega (arith, length-take count (slice position rest file))) in
            let first : slice position count file ≡ view pack audio position count =
              slice_prefix position count rest file (omega arith)
              ∙ ap (slice 0 count) e
              ∙ sym (slice_prefix (audio.offset + position) count rest pack.pack (omega arith)) in
            let below : position < audio.length = ltb→lt position audio.length f in
            let place : audio.offset + position + count ≡ audio.offset + (position + count) =
              omega arith in
            let next_size : length (slice (position + count) (rest - count) file) ≡ rest - count =
              rw⁻¹ (slice-slice count (rest - count) position rest file (omega arith)) (
                length-slice count (rest - count) (slice position rest file)
                  (omega (arith, whole))) in
            let next : slice (position + count) (rest - count) file
                ≡ view pack audio (position + count) (rest - count) =
              sym (slice-slice count (rest - count) position rest file (omega arith))
              ∙ ap (slice count (rest - count)) e
              ∙ slice-slice count (rest - count) (audio.offset + position) rest pack.pack
                  (omega arith)
              ∙ ap (λ k. slice k (rest - count) pack.pack) place in
            rw (f, ==_of_eq size, text_eq_of_eq first)
              (compare_chunks-same fuel (position + count) (rest - count)
                  (fed ++ slice position count file) some_chunk (omega (arith, below)) (omega arith)
                  next_size next
                ∙ ap same (
                    append_assoc fed (slice position count file)
                      (slice (position + count) (rest - count) file)
                    ∙ ap (λ l. fed ++ l)
                        (sym (slice_split position count (rest - count) file)
                          ∙ ap (λ n. slice position n file) rejoined)))
      ]
