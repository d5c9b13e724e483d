-- ===== src/Encoding/Decimal/Laws.antt =====
-- A number that is printed is read back, also with more text behind it.
use mathlib.Core.List.{append-nil, append_assoc}
use yomitan_audio_fast.Prelude.{
  ℕ, zero, suc, ◌+◌, ◌-◌, ◌*◌, ◌/◌, ◌%◌, ◌<◌, ◌≡◌, ◌∙◌, refl, sym, ap, Bool, true, false, [], ◌∷◌,
  ◌++◌, some, ltb, ◌==◌, ◌&&◌, arith, All, Bool-cases, inl, inr, ltb→lt,
}
use yomitan_audio_fast.Prelude.Int.{pos}
use yomitan_audio_fast.Prelude.Text.{Text}
use yomitan_audio_fast.Encoding.Decimal.{
  is_digit, is_space, strip_right, strip, is_ascii, has_separator, digits_value, signed_value,
  int_of_text, decimal_fuel, decimal,
}

digits_value-digit :
    (total d : ℕ) (b : Bool) (rest : Text)
    → d < 10
    → digits_value total b ((48 + d) ∷ rest) ≡ digits_value (total * 10 + d) true rest
unfolding digits_value
digits_value-digit total d b rest h =
    let digit : is_digit (48 + d) ≡ true = ground arith in
    let value : total * 10 + (48 + d - 48) ≡ total * 10 + d = omega arith in
    rw (digit, digits_value) (ap (λ k. digits_value k true rest) value)

digits_value-decimal_fuel :
    (fuel n : ℕ) (b : Bool) (rest : Text)
    → n < fuel
    → digits_value 0 b (decimal_fuel fuel n ++ rest) ≡ digits_value n true rest
unfolding decimal_fuel
digits_value-decimal_fuel zero n b rest h = absurd (omega arith)
digits_value-decimal_fuel (suc fuel) n b rest h = elim (Bool-cases (ltb n 10)) [
  | inl small ↦ rw small (
      digits_value-digit 0 n b rest (ltb→lt n 10 small)
      ∙ ap (λ k. digits_value k true rest) zero_times)
  | inr big ↦ rw big (
      rw append_assoc (
        digits_value-decimal_fuel fuel (n / 10) b ((48 + n % 10) ∷ rest) (ground arith)
        ∙ digits_value-digit (n / 10) (n % 10) true rest (omega arith)
        ∙ ap (λ k. digits_value k true rest) whole))
]
  where
    zero_times : 0 * 10 + n ≡ n
    zero_times = omega arith

    whole : n / 10 * 10 + n % 10 ≡ n
    whole = omega arith

All-append_digits :
    (xs ys : Text)
    → All (λ c. is_digit c ≡ true) xs
    → All (λ c. is_digit c ≡ true) ys
    → All (λ c. is_digit c ≡ true) (xs ++ ys)
All-append_digits [] ys h k = k
All-append_digits (x ∷ xs) ys h k = (h.0, All-append_digits xs ys h.1 k)

-- a printed number consists of digits
pub decimal_digits : (fuel n : ℕ) → All (λ c. is_digit c ≡ true) (decimal_fuel fuel n)
unfolding decimal_fuel
decimal_digits zero n = tt
decimal_digits (suc fuel) n = elim (Bool-cases (ltb n 10)) [
  | inl small ↦ rw small (ground arith, tt)
  | inr big ↦ rw big (
      All-append_digits (decimal_fuel fuel (n / 10)) ((48 + n % 10) ∷ [])
        (decimal_digits fuel (n / 10)) (ground arith, tt))
]

-- Text with no white space is not stripped.
abbrev pub HasNoSpace : Text → Type 0
HasNoSpace = All (λ c. is_space c ≡ false)

pub HasNoSpace-of_digits : (cs : Text) → All (λ c. is_digit c ≡ true) cs → HasNoSpace cs
HasNoSpace-of_digits [] h = tt
HasNoSpace-of_digits (c ∷ cs) h = (ground arith, HasNoSpace-of_digits cs h.1)

strip_right_of_HasNoSpace : (cs : Text) → HasNoSpace cs → strip_right cs ≡ cs
unfolding strip_right
strip_right_of_HasNoSpace [] h = refl
strip_right_of_HasNoSpace (c ∷ []) h = ground arith
strip_right_of_HasNoSpace (c ∷ d ∷ cs) h = rw (strip_right_of_HasNoSpace (d ∷ cs) h.1) refl

pub strip_of_HasNoSpace : (cs : Text) → HasNoSpace cs → strip cs ≡ cs
unfolding strip
strip_of_HasNoSpace [] h = refl
strip_of_HasNoSpace (c ∷ cs) h = rw h.0 (strip_right_of_HasNoSpace (c ∷ cs) h)

has_separator_of_HasNoSpace : (cs : Text) → HasNoSpace cs → has_separator cs ≡ false
unfolding has_separator
has_separator_of_HasNoSpace [] h = refl
has_separator_of_HasNoSpace (c ∷ cs) h = ground (arith, has_separator_of_HasNoSpace cs h.1)

and_false : (b : Bool) → (b && false) ≡ false
and_false b = ground arith

signed_value-digits :
    (cs : Text) (n : ℕ)
    → All (λ c. is_digit c ≡ true) cs
    → digits_value 0 false cs ≡ some n
    → signed_value cs ≡ some (pos n)
unfolding signed_value
signed_value-digits [] n h e = cc
signed_value-digits (c ∷ cs) n h e =
    let no_minus : (c == 45) ≡ false = ground arith in
    let no_plus : (c == 43) ≡ false = ground arith in
    rw (no_minus, no_plus) (rw (e, signed_value) refl)

read_back : (n : ℕ) → digits_value 0 false (decimal_fuel (suc n) n) ≡ some n
read_back n =
    ap (digits_value 0 false) (sym (append-nil (decimal_fuel (suc n) n)))
    ∙ digits_value-decimal_fuel (suc n) n false [] (omega arith)
    ∙ (unfold digits_value in refl)

-- A printed number is read back.
pub int_of_text-decimal : (n : ℕ) → int_of_text (decimal n) ≡ some (pos n)
unfolding int_of_text decimal
int_of_text-decimal n =
    let text = decimal_fuel (suc n) n in
    let digits = decimal_digits (suc n) n in
    let spaceless = HasNoSpace-of_digits text digits in
    rw
      (
        has_separator_of_HasNoSpace text spaceless,
        and_false (is_ascii text),
        strip_of_HasNoSpace text spaceless,
      )
      (signed_value-digits text n digits (read_back n))
