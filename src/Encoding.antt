-- ===== src/Encoding.antt =====
-- The text encodings of the standard library that the server uses: UTF-8, percent-encoding
-- (`urllib.parse.quote` and `unquote_to_bytes`), decimal numbers and compact JSON.
pub mod Percent
pub mod Decimal
pub mod Json
