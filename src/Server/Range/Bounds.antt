-- ===== src/Server/Range/Bounds.antt =====
-- A range that is served lies inside the resource.
use yomitan_audio_fast.Prelude.{
  ℕ, zero, suc, ◌+◌, ◌≤◌, ◌<◌, ◌≡◌, [], ◌∷◌, Option, none, some, arith, drop,
}
use yomitan_audio_fast.Prelude.Int.{ℤ, pos, negsuc}
use yomitan_audio_fast.Prelude.Text.{Text}
use yomitan_audio_fast.Encoding.Decimal.{strip, int_of_text}
use yomitan_audio_fast.Server.Range.{
  range, range_of_header, range_parts, from_start, bounded_range, suffix_range, end_value,
  split_dash,
}

pub record IsPart (size : ℕ) (part : ℕ × ℕ) : Type 0 where
  pub nonempty : 0 < part.1
  pub within : part.0 + part.1 ≤ size

bounded_range-IsPart :
    (size start : ℕ) (end : ℤ) {part : ℕ × ℕ}
    → 0 < size
    → bounded_range size start end ≡ some part
    → IsPart size part
bounded_range-IsPart size start (negsuc n) p e = absurd (ground arith)
bounded_range-IsPart size start (pos end) p e = ground arith

suffix_range-IsPart :
    (size : ℕ) (suffix : Option ℤ) {part : ℕ × ℕ}
    → 0 < size
    → suffix_range size suffix ≡ some part
    → IsPart size part
suffix_range-IsPart size none p e = absurd (ground arith)
suffix_range-IsPart size (some (negsuc n)) p e = absurd (ground arith)
suffix_range-IsPart size (some (pos zero)) p e = absurd (ground arith)
suffix_range-IsPart size (some (pos (suc n))) p e = ground arith

from_start-IsPart :
    (size : ℕ) (start end : Option ℤ) {part : ℕ × ℕ}
    → 0 < size
    → from_start size start end ≡ some part
    → IsPart size part
from_start-IsPart size (some (pos n)) (some end) p e = bounded_range-IsPart size n end p e
from_start-IsPart size _ _ p e = absurd (ground arith)

range_parts-IsPart :
    (size : ℕ) (parts : Text × Text) {part : ℕ × ℕ}
    → 0 < size
    → range_parts size parts ≡ some part
    → IsPart size part
unfolding range_parts
range_parts-IsPart size ([], end_text) p e = suffix_range-IsPart size (int_of_text end_text) p e
range_parts-IsPart size (c ∷ cs, end_text) p e =
    from_start-IsPart size (int_of_text (c ∷ cs)) (end_value size end_text) p e

-- Whatever the header, the part of a resource that it selects is not empty and lies inside the resource.
pub range_of_header-IsPart :
    (header : Text) (size : ℕ) {part : ℕ × ℕ}
    → range (some header) size ≡ some part
    → IsPart size part
unfolding range range_of_header
range_of_header-IsPart header size {part} e =
    ground (arith, range_parts-IsPart size (split_dash (strip (drop 6 header))) {part = part})
