-- ===== src/Server/Range/Printed.antt =====
-- A well-formed `Range` header is read as RFC 9110 means it.
use Prim.Native.Nat.{min}
use yomitan_audio_fast.Prelude.{
  ℕ, suc, ◌+◌, ◌-◌, ◌≤◌, ◌<◌, ◌≡◌, ◌∙◌, refl, true, false, List, [], ◌∷◌, ◌++◌, none, some, arith,
  leb, ◌==◌, All, any, ◌||◌, Bool,
}
use yomitan_audio_fast.Prelude.Int.{pos}
use yomitan_audio_fast.Prelude.Text.{Text, codes, text_eq}
use yomitan_audio_fast.Encoding.Decimal.{is_digit, int_of_text, decimal}
use yomitan_audio_fast.Encoding.Decimal.Laws.{
  HasNoSpace, HasNoSpace-of_digits, strip_of_HasNoSpace, decimal_digits, int_of_text-decimal,
}
use yomitan_audio_fast.Server.Range.{
  range, range_of_header, range_parts, split_dash, has_char, bounded_range,
}

split_dash-digits :
    (xs ys : Text) → All (λ c. is_digit c ≡ true) xs → split_dash (xs ++ b'-' ∷ ys) ≡ (xs, ys)
unfolding split_dash
split_dash-digits [] ys h = refl
split_dash-digits (x ∷ xs) ys h =
    let plain : (x == b'-') ≡ false = ground arith in rw (split_dash-digits xs ys h.1, plain)

any-append {ℓ} :
    {A : Type ℓ} (p : A → Bool) (xs ys : List A) → any p (xs ++ ys) ≡ (any p xs || any p ys)
unfolding any
any-append p [] ys = refl
any-append p (x ∷ xs) ys = ground (arith, any-append p xs ys)

has_char-digits :
    (c : ℕ) (xs : Text)
    → is_digit c ≡ false
    → All (λ d. is_digit d ≡ true) xs
    → has_char c xs ≡ false
unfolding any
has_char-digits c [] n h = refl
has_char-digits c (x ∷ xs) n h = ground (arith, has_char-digits c xs n h.1)

int_of_text_nil : int_of_text [] ≡ none
unfolding int_of_text
int_of_text_nil = refl

range_parts-numbers :
    (size a b : ℕ) (xs ys : Text)
    → int_of_text xs ≡ some (pos a)
    → int_of_text ys ≡ some (pos b)
    → range_parts size (xs, ys) ≡ bounded_range size a (pos b)
unfolding range_parts
range_parts-numbers size a b [] ys e f = cc int_of_text_nil
range_parts-numbers size a b (x ∷ xs) [] e f = cc int_of_text_nil
range_parts-numbers size a b (x ∷ xs) (y ∷ ys) e f = rw (e, f)

-- the header that asks for the bytes from `first` to `last`
abbrev pub header_of : ℕ → ℕ → Text
header_of first last = codes "bytes=" ++ (decimal first ++ b'-' ∷ decimal last)

module _ (first last : ℕ) where
  abbrev spec : Text
  spec = decimal first ++ b'-' ∷ decimal last

  digits_of : (n : ℕ) → All (λ c. is_digit c ≡ true) (decimal n)
  unfolding decimal
  digits_of n = decimal_digits (suc n) n

  spec-HasNoSpace : (xs ys : Text) → HasNoSpace xs → HasNoSpace ys → HasNoSpace (xs ++ b'-' ∷ ys)
  spec-HasNoSpace [] ys h k = (refl, k)
  spec-HasNoSpace (x ∷ xs) ys h k = (h.0, spec-HasNoSpace xs ys h.1 k)

  has_comma-header : has_char b',' (header_of first last) ≡ false
  has_comma-header =
      (unfold any in
        any-append (λ d. d == b',') (decimal first) (b'-' ∷ decimal last)
        ∙ ground (
          arith,
          has_char-digits b',' (decimal first) refl (digits_of first),
          has_char-digits b',' (decimal last) refl (digits_of last),
        ))

  has_dash-spec : has_char b'-' spec ≡ true
  unfolding any
  has_dash-spec = ground (arith, any-append (λ d. d == b'-') (decimal first) (b'-' ∷ decimal last))

bounded_range-inside :
    (first last size : ℕ)
    → first ≤ last
    → first < size
    → bounded_range size first (pos last) ≡ some (first, min last (size - 1) - first + 1)
bounded_range-inside first last size h k = ground arith

-- Of a resource of `size` bytes, the header for the bytes from `first` to `last` selects these bytes, cut
-- off at the end of the resource, if `first` lies in it and is at most `last`.
pub range-header_of :
    (first last size : ℕ)
    → first ≤ last
    → first < size
    → range (some (header_of first last)) size ≡ some (first, min last (size - 1) - first + 1)
unfolding range range_of_header text_eq
range-header_of first last size h k =
    let stripped = strip_of_HasNoSpace (spec first last) (
      spec-HasNoSpace first last (decimal first) (decimal last)
        (HasNoSpace-of_digits (decimal first) (digits_of first last first))
        (HasNoSpace-of_digits (decimal last) (digits_of first last last))) in
    let positive : leb size 0 ≡ false = ground arith in
    rw (positive, has_comma-header first last)
      (rw (stripped, has_dash-spec first last)
        (rw (split_dash-digits (decimal first) (decimal last) (digits_of first last first)) (
          range_parts-numbers size first last (decimal first) (decimal last)
            (int_of_text-decimal first) (int_of_text-decimal last)
          ∙ bounded_range-inside first last size h k)))
