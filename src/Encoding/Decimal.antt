-- ===== src/Encoding/Decimal.antt =====
-- `int(text)` and `str(n)` for decimal numbers. The texts come from a request line or a header, which
-- are Latin-1: the white space and the digits are those of its 256 characters.
pub mod Laws
use yomitan_audio_fast.Prelude.{
  ℕ, zero, suc, ◌+◌, ◌-◌, ◌*◌, ◌/◌, ◌%◌, Bool, true, false, List, [], ◌∷◌, ◌++◌, Option, none, some,
  ◌||◌, ◌&&◌, ltb, leb, ◌==◌, if◌then◌else◌,
}
use yomitan_audio_fast.Prelude.Int.{ℤ, pos, negsuc}
use yomitan_audio_fast.Prelude.Text.{Text}

abbrev pub is_digit : ℕ → Bool
is_digit c = leb b'0' c && leb c b'9'

-- `str.isspace`
abbrev pub is_space : ℕ → Bool
is_space c =
    (leb 9 c && leb c 13)
    || ((leb 28 c && leb c 32)
        || (c == 0x85
            || (c == 0xa0
                || (c == 0x1680
                    || ((leb 0x2000 c && leb c 0x200a)
                        || (c == 0x2028
                            || (c == 0x2029 || (c == 0x202f || (c == 0x205f || c == 0x3000)))))))))

unfoldable pub strip_left : Text → Text
strip_left [] = []
strip_left (c ∷ cs) = let rest = strip_left cs in if is_space c then rest else c ∷ cs

abbrev pub keep_right : ℕ → Text → Text
keep_right c [] = if is_space c then [] else c ∷ []
keep_right c (d ∷ ds) = c ∷ d ∷ ds

unfoldable pub strip_right : Text → Text
strip_right [] = []
strip_right (c ∷ cs) = keep_right c (strip_right cs)

-- text.strip()
unfoldable pub strip : Text → Text
unfolding strip_left strip_right
strip text = strip_right (strip_left text)

-- Digits, with single underscores between them. `after_digit` says that the text may end here.
unfoldable pub digits_value : ℕ → Bool → Text → Option ℕ
digits_value total after_digit [] = if after_digit then some total else none
digits_value total after_digit (c ∷ cs) = elim (is_digit c) [
  | true ↦ digits_value (total * 10 + (c - 48)) true cs
  | false ↦ elim (after_digit && c == b'_') [ true ↦ digits_value total false cs | false ↦ none ]
]

abbrev pub negate : ℕ → ℤ
negate zero = pos 0
negate (suc n) = negsuc n

unfoldable pub signed_value : Text → Option ℤ
unfolding digits_value
signed_value [] = none
signed_value (c ∷ cs) =
    if c == b'-'
    then (elim (digits_value 0 false cs) [ none ↦ none | some n ↦ some (negate n) ])
    else if c == b'+'
    then (elim (digits_value 0 false cs) [ none ↦ none | some n ↦ some (pos n) ])
    else (elim (digits_value 0 false (c ∷ cs)) [ none ↦ none | some n ↦ some (pos n) ])

unfoldable pub is_ascii : Text → Bool
is_ascii [] = true
is_ascii (c ∷ cs) = ltb c 128 && is_ascii cs

-- one of the four separators \x1c to \x1f
unfoldable pub has_separator : Text → Bool
has_separator [] = false
has_separator (c ∷ cs) = (leb 28 c && leb c 31) || has_separator cs

-- int(text); `none` is a ValueError. The separators are white space to `int` only in a text that is not
-- ASCII. The limit on the digits that some versions of Python set is left out.
unfoldable pub int_of_text : Text → Option ℤ
unfolding signed_value strip is_ascii has_separator
int_of_text text = if is_ascii text && has_separator text then none else signed_value (strip text)

-- str(n): at most one digit for each unit of fuel
unfoldable pub decimal_fuel : ℕ → ℕ → Text
decimal_fuel zero n = []
decimal_fuel (suc fuel) n =
    let front = decimal_fuel fuel (n / 10) in
    if ltb n 10 then (48 + n) ∷ [] else front ++ (48 + n % 10) ∷ []

-- `suc n` is fuel enough, since each digit divides the number by ten.
unfoldable pub decimal : ℕ → Text
unfolding decimal_fuel
decimal n = decimal_fuel (suc n) n
