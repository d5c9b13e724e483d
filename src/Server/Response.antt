-- ===== src/Server/Response.antt =====
-- Responses of `LocalAudioHandler` (anki-addon/server.py: `_headers`, `_payload`, `_error`). That the
-- client goes away while a body is written only closes the connection.
use yomitan_audio_fast.Prelude.{
  ℕ, List, [], ◌∷◌, ◌++◌, Option, none, some, Bool, length, if◌then◌else◌,
}
use yomitan_audio_fast.Prelude.Text.{Text, codes}
use yomitan_audio_fast.Bytes.{Bytes}
use yomitan_audio_fast.Encoding.Decimal.{decimal}
use yomitan_audio_fast.Encoding.Percent.{utf8}
use yomitan_audio_fast.Encoding.Json.{str, obj, field, end, dumps}

abbrev pub Headers : Type 0
Headers = List (Text × Text)

-- the arguments of `_headers`, and the body that is written
pub record Response : Type 0 where
  pub status : ℕ
  pub content_type : Option Text
  pub content_length : Option ℕ
  pub extra : Headers
  pub body : Bytes

abbrev optional_header : Text → Option Text → Headers
optional_header name none = []
optional_header name (some value) = (name, value) ∷ []

abbrev pub printed : Option ℕ → Option Text
printed none = none
printed (some n) = some (decimal n)

-- the header lines that `_headers` sends
unfoldable pub header_lines : Response → Headers
header_lines r =
    optional_header (codes "Content-Type") r.content_type
    ++ (optional_header (codes "Content-Length") (printed r.content_length)
        ++ ((codes "Access-Control-Allow-Origin", codes "*")
            ∷ (codes "X-Content-Type-Options", codes "nosniff")
            ∷ r.extra))

abbrev pub written : Bool → Bytes → Bytes
written head_only payload = if head_only then [] else payload

-- `_payload`
abbrev pub payload : ℕ → Bytes → Text → Bool → Headers → Response
payload status bytes content_type head_only extra = record {
  status = status;
  content_type = some content_type;
  content_length = some (length bytes);
  extra = extra;
  body = written head_only bytes;
}

abbrev pub no_store : Headers
no_store = (codes "Cache-Control", codes "no-store") ∷ []

abbrev pub json_type : Text
json_type = codes "application/json; charset=utf-8"

-- `_error`
unfoldable pub error : ℕ → Text → Bool → Response
error status message head_only =
    payload status (utf8 (dumps (obj (field (codes "error") (str message) end)))) json_type
      head_only no_store
