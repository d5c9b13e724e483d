-- ===== src/Tests/Encoding.antt =====
-- Texts quoted, and parts of a resource.
use yomitan_audio_fast.Prelude.{◌≡◌, refl, false, [], ◌∷◌, some, any, arith}
use yomitan_audio_fast.Bytes.{Bytes}
use yomitan_audio_fast.Encoding.Percent.{is_plain, quote_bytes, unquote_bytes}
use yomitan_audio_fast.Encoding.Percent.Laws.{unquote_bytes-quote_bytes}
use yomitan_audio_fast.Server.Range.{range}
use yomitan_audio_fast.Server.Range.Bounds.{IsPart, range_of_header-IsPart}
use yomitan_audio_fast.Server.Range.Printed.{header_of, range-header_of}

abbrev bytes : Bytes
bytes = 37 ∷ 227 ∷ 65 ∷ []

percent-IsQuoted : is_plain [] b'%' ≡ false
unfolding is_plain any
percent-IsQuoted = refl

unquote_bytes-quote_bytes_example : unquote_bytes (quote_bytes [] bytes) ≡ bytes
unquote_bytes-quote_bytes_example =
    unquote_bytes-quote_bytes [] bytes percent-IsQuoted
      (omega arith, (omega arith, (omega arith, tt)))

range-header_of_example : range (some (header_of 2 9)) 6 ≡ some (2, 4)
range-header_of_example = range-header_of 2 9 6 (omega arith) (omega arith)

range_of_header-IsPart_example : IsPart 6 (2, 4)
range_of_header-IsPart_example =
    range_of_header-IsPart (header_of 2 9) 6 {part = (2, 4)}
      (range-header_of 2 9 6 (omega arith) (omega arith))
