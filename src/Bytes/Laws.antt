-- ===== src/Bytes/Laws.antt =====
-- Laws of slices, writes and little-endian integers.
use native.Mathlib.Nat.{zero-add, suc-add, pow-suc}
use yomitan_audio_fast.Prelude.{
  ℕ, zero, suc, ◌+◌, ◌/◌, ◌^◌, ◌-◌, ◌≤◌, ◌<◌, ◌≡◌, ◌∙◌, ◌⊎◌, inl, inr, refl, ap, [], ◌∷◌, ◌++◌,
  take, drop, length, arith, length-take, length-drop, length-append, take-append, take-drop-append,
}
use yomitan_audio_fast.Bytes.{Bytes, slice, le_value, le_bytes, write_at, zeros}

pub length-le_bytes : (width n : ℕ) → length (le_bytes width n) ≡ width
unfolding le_bytes
length-le_bytes zero n = refl
length-le_bytes (suc width) n = ap suc (length-le_bytes width (n / 256))

pub le_value-le_bytes : (width n : ℕ) → n < 256 ^ width → le_value (le_bytes width n) ≡ n
unfolding le_value le_bytes
le_value-le_bytes zero n h = omega arith
le_value-le_bytes (suc width) n h =
    let small : n / 256 < 256 ^ width = omega (arith, pow-suc 256 width) in
    omega (arith, le_value-le_bytes width (n / 256) small)

pub length-zeros : (n : ℕ) → length (zeros n) ≡ n
unfolding zeros
length-zeros zero = refl
length-zeros (suc n) = ap suc (length-zeros n)

pub length-slice :
    (start size : ℕ) (bytes : Bytes)
    → start + size ≤ length bytes
    → length (slice start size bytes) ≡ size
length-slice start size bytes h =
    omega (arith, length-take size (drop start bytes), length-drop start bytes)

drop_nil : (i : ℕ) → drop {A = ℕ} i [] ≡ []
drop_nil zero = refl
drop_nil (suc i) = refl

pub drop-drop : (i j : ℕ) (l : Bytes) → drop i (drop j l) ≡ drop (j + i) l
drop-drop i zero l = rw zero-add
drop-drop i (suc j) [] = rw (drop_nil i, drop_nil (suc j + i))
drop-drop i (suc j) (x ∷ l) = rw suc-add (drop-drop i j l)

take-drop-take :
    (i n size : ℕ) (l : Bytes) → i + n ≤ size → take n (drop i (take size l)) ≡ take n (drop i l)
take-drop-take zero zero size l h = refl
take-drop-take zero (suc n) zero l h = absurd (omega arith)
take-drop-take zero (suc n) (suc size) [] h = refl
take-drop-take zero (suc n) (suc size) (x ∷ l) h =
    ap (◌∷◌ x) (take-drop-take zero n size l (omega arith))
take-drop-take (suc i) n zero l h = absurd (omega arith)
take-drop-take (suc i) n (suc size) [] h = refl
take-drop-take (suc i) n (suc size) (x ∷ l) h = take-drop-take i n size l (omega arith)

drop-append_ge :
    (i : ℕ) (xs ys : Bytes) → length xs ≤ i → drop i (xs ++ ys) ≡ drop (i - length xs) ys
drop-append_ge i [] ys h = ap (λ k. drop k ys) (omega arith)
drop-append_ge zero (x ∷ xs) ys h = absurd (omega arith)
drop-append_ge (suc i) (x ∷ xs) ys h =
    drop-append_ge i xs ys (omega arith) ∙ ap (λ k. drop k ys) (omega arith)

-- a slice of a slice
pub slice-slice :
    (i n start size : ℕ) (bytes : Bytes)
    → i + n ≤ size
    → slice i n (slice start size bytes) ≡ slice (start + i) n bytes
slice-slice i n start size bytes h =
    take-drop-take i n size (drop start bytes) h ∙ ap (take n) (drop-drop i start bytes)

-- A slice of the bytes that were there before does not see what is appended.
pub slice-append :
    (start size : ℕ) (xs ys : Bytes)
    → start + size ≤ length xs
    → slice start size (xs ++ ys) ≡ slice start size xs
slice-append = take-drop-append

pub length-write_at :
    (start : ℕ) (new bytes : Bytes)
    → start + length new ≤ length bytes
    → length (write_at start new bytes) ≡ length bytes
unfolding write_at
length-write_at start new bytes h = omega (
  arith,
  length-append (take start bytes) (new ++ drop (start + length new) bytes),
  length-append new (drop (start + length new) bytes),
  length-take start bytes,
  length-drop (start + length new) bytes,
)

-- What was written is read back.
pub slice-write_at_self :
    (start : ℕ) (new bytes : Bytes)
    → start + length new ≤ length bytes
    → slice start (length new) (write_at start new bytes) ≡ new
unfolding write_at
slice-write_at_self start new bytes h =
    let before = take start bytes in
    let after = drop (start + length new) bytes in
    let at : length before ≡ start = omega (arith, length-take start bytes) in
    let at_zero : start - length before ≡ 0 = omega arith in
    ap (take (length new)) (
      drop-append_ge start before (new ++ after) (omega arith)
      ∙ ap (λ k. drop k (new ++ after)) at_zero)
    ∙ take-append new after

-- A slice that ends before what was written, or starts after it, is unchanged.
pub slice-write_at_ne :
    (i n start : ℕ) (new bytes : Bytes)
    → start + length new ≤ length bytes
    → (i + n ≤ start) ⊎ (start + length new ≤ i)
    → slice i n (write_at start new bytes) ≡ slice i n bytes
unfolding write_at
slice-write_at_ne i n start new bytes h (inl before) =
    take-drop-append i n (take start bytes) (new ++ drop (start + length new) bytes)
      (omega (arith, length-take start bytes))
    ∙ take-drop-take i n start bytes before
slice-write_at_ne i n start new bytes h (inr after) =
    let rest = drop (start + length new) bytes in
    let at : length (take start bytes) ≡ start = omega (arith, length-take start bytes) in
    ap (take n) (
      drop-append_ge i (take start bytes) (new ++ rest) (omega arith)
      ∙ drop-append_ge (i - length (take start bytes)) new rest (omega arith)
      ∙ drop-drop (i - length (take start bytes) - length new) (start + length new) bytes
      ∙ ap (λ k. drop k bytes) (omega arith))
