-- ===== src/Encoding/Percent.antt =====
-- UTF-8 and percent-encoding.
pub mod Laws
use yomitan_audio_fast.Prelude.{
  ℕ, ◌+◌, ◌-◌, ◌*◌, ◌/◌, ◌%◌, Bool, true, false, List, [], ◌∷◌, ◌++◌, Option, none, some, ◌||◌,
  ◌&&◌, ltb, leb, ◌==◌, if◌then◌else◌, any,
}
use yomitan_audio_fast.Prelude.Text.{Text, codes}
use yomitan_audio_fast.Bytes.{Bytes}

-- the UTF-8 bytes of a code point
unfoldable pub utf8_char : ℕ → Bytes
utf8_char c =
    if ltb c 0x80
    then c ∷ []
    else if ltb c 0x800
    then (0xc0 + c / 64) ∷ (0x80 + c % 64) ∷ []
    else if ltb c 0x10000
    then (0xe0 + c / 4096) ∷ (0x80 + c / 64 % 64) ∷ (0x80 + c % 64) ∷ []
    else (0xf0 + c / 262144) ∷ (0x80 + c / 4096 % 64) ∷ (0x80 + c / 64 % 64) ∷ (0x80 + c % 64) ∷ []

unfoldable pub utf8 : Text → Bytes
utf8 [] = []
utf8 (c ∷ cs) = utf8_char c ++ utf8 cs

abbrev pub is_alphanumeric : ℕ → Bool
is_alphanumeric b =
    (leb b'A' b && leb b b'Z') || ((leb b'a' b && leb b b'z') || (leb b'0' b && leb b b'9'))

-- `quote` leaves letters, digits, `_.-~` and the safe characters as they are.
unfoldable pub is_plain : Text → ℕ → Bool
is_plain safe b = is_alphanumeric b || (any (λ c. c == b) (codes "_.-~") || any (λ c. c == b) safe)

-- an upper-case hexadecimal digit
unfoldable pub hex_digit : ℕ → ℕ
hex_digit d = if ltb d 10 then 48 + d else 55 + d

unfoldable pub quote_byte : Text → ℕ → Text
quote_byte safe b =
    if is_plain safe b then b ∷ [] else b'%' ∷ hex_digit (b / 16) ∷ hex_digit (b % 16) ∷ []

unfoldable pub quote_bytes : Text → Bytes → Text
unfolding quote_byte
quote_bytes safe [] = []
quote_bytes safe (b ∷ bs) = quote_byte safe b ++ quote_bytes safe bs

-- quote(text, safe=safe)
abbrev pub quote : Text → Text → Text
quote safe text = quote_bytes safe (utf8 text)

-- the value of a hexadecimal digit of either case
unfoldable pub hex_value : ℕ → Option ℕ
hex_value c =
    if leb b'0' c && leb c b'9'
    then some (c - 48)
    else if leb b'A' c && leb c b'F'
    then some (c - 55)
    else if leb b'a' c && leb c b'f'
    then some (c - 87)
    else none

-- Two digits after a `%` are a byte.
abbrev pub hex_byte : ℕ → ℕ → Option ℕ
hex_byte h l = elim (hex_value h) [
  | none ↦ none
  | some x ↦ elim (hex_value l) [ none ↦ none | some y ↦ some (16 * x + y) ]
]

-- `unquote_to_bytes`: escapes are replaced, all else stands for itself.
unfoldable pub unquote_bytes : Text → Bytes
unquote_bytes [] = []
unquote_bytes (a ∷ []) = a ∷ []
unquote_bytes (a ∷ b ∷ []) = a ∷ b ∷ []
unquote_bytes (a ∷ b ∷ c ∷ rest) =
    let plain = a ∷ unquote_bytes (b ∷ c ∷ rest) in
    if a == b'%'
    then (elim (hex_byte b c) [ none ↦ plain | some v ↦ v ∷ unquote_bytes rest ])
    else plain
