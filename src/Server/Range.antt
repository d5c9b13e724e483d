-- ===== src/Server/Range.antt =====
-- `_range` of anki-addon/server.py: a `Range` header against a size, as a start and a length.
pub mod Bounds
pub mod Printed
use yomitan_audio_fast.Prelude.{
  ℕ, zero, suc, ◌+◌, ◌-◌, Bool, true, false, List, [], ◌∷◌, Option, none, some, ◌||◌, ◌==◌, ltb,
  leb, any, take, drop, not, if◌then◌else◌,
}
use Prim.Native.Nat.{min}
use yomitan_audio_fast.Prelude.Int.{ℤ, pos, negsuc}
use yomitan_audio_fast.Prelude.Text.{Text, codes, text_eq}
use yomitan_audio_fast.Encoding.Decimal.{strip, int_of_text}

abbrev pub has_char : ℕ → Text → Bool
has_char c = any (λ d. d == c)

-- header.startswith("bytes=")
abbrev pub starts_with_bytes : Text → Bool
starts_with_bytes header = text_eq (take 6 header) (codes "bytes=")

-- The text before the first dash and the text behind it.
unfoldable pub split_dash : Text → Text × Text
split_dash [] = ([], [])
split_dash (c ∷ cs) =
    let (before, after) = split_dash cs in if c == b'-' then ([], cs) else (c ∷ before, after)

-- start and length, from the last byte of the range
abbrev pub up_to : ℕ → ℕ → ℕ × ℕ
up_to start end = (start, end - start + 1)

-- `end < start or start >= size` refuses; the end is cut off at the last byte.
abbrev pub bounded_range : ℕ → ℕ → ℤ → Option (ℕ × ℕ)
bounded_range size start (negsuc n) = none
bounded_range size start (pos end) =
    if ltb end start || leb size start then none else some (up_to start (min end (size - 1)))

-- an end that is left out is the last byte
abbrev pub end_value : ℕ → Text → Option ℤ
end_value size [] = some (pos (size - 1))
end_value size (c ∷ cs) = int_of_text (c ∷ cs)

abbrev pub from_start : ℕ → Option ℤ → Option ℤ → Option (ℕ × ℕ)
from_start size (some (pos start)) (some end) = bounded_range size start end
from_start size _ _ = none

-- the last `suffix` bytes; `size - suffix` stops at 0 as `max(0, size - suffix)` does
abbrev pub suffix_range : ℕ → Option ℤ → Option (ℕ × ℕ)
suffix_range size (some (pos (suc n))) = some (up_to (size - suc n) (size - 1))
suffix_range size _ = none

unfoldable pub range_parts : ℕ → Text × Text → Option (ℕ × ℕ)
range_parts size ([], end_text) = suffix_range size (int_of_text end_text)
range_parts size (c ∷ cs, end_text) =
    from_start size (int_of_text (c ∷ cs)) (end_value size end_text)

unfoldable pub range_of_header : Text → ℕ → Option (ℕ × ℕ)
range_of_header header size =
    if leb size 0
    then none
    else if not (starts_with_bytes header) || has_char b',' header
    then none
    else (let parts = strip (drop 6 header) in
        if has_char b'-' parts then range_parts size (split_dash parts) else none)

unfoldable pub range : Option Text → ℕ → Option (ℕ × ℕ)
unfolding range_of_header range_parts
range none size = some (0, size)
range (some header) size = range_of_header header size
