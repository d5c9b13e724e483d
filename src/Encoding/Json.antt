-- ===== src/Encoding/Json.antt =====
-- `json.dumps(value, ensure_ascii=False, separators=(",", ":"))` on the values that the server sends.
use yomitan_audio_fast.Prelude.{ℕ, ◌+◌, ◌/◌, ◌%◌, [], ◌∷◌, ◌++◌, ◌==◌, ltb, if◌then◌else◌}
use yomitan_audio_fast.Prelude.Text.{Text, codes}
use yomitan_audio_fast.Encoding.Decimal.{decimal}

mutual
  pub data Json : Type 0 where
    null : Json
    num : ℕ → Json
    str : Text → Json
    arr : Items → Json
    obj : Fields → Json

  pub data Items : Type 0 where
    nil : Items
    item : Json → Items → Items

  pub data Fields : Type 0 where
    end : Fields
    field : Text → Json → Fields → Fields

abbrev pub lower_hex : ℕ → ℕ
lower_hex d = if ltb d 10 then 48 + d else 87 + d

-- The quote, the backslash and the control characters are escaped; 34 is `"` and 92 is the backslash.
unfoldable pub escape : ℕ → Text
escape c =
    if c == 34
    then 92 ∷ 34 ∷ []
    else if c == 92
    then 92 ∷ 92 ∷ []
    else if c == 10
    then 92 ∷ b'n' ∷ []
    else if c == 13
    then 92 ∷ b'r' ∷ []
    else if c == 9
    then 92 ∷ b't' ∷ []
    else if c == 12
    then 92 ∷ b'f' ∷ []
    else if c == 8
    then 92 ∷ b'b' ∷ []
    else if ltb c 32
    then 92 ∷ b'u' ∷ b'0' ∷ b'0' ∷ lower_hex (c / 16) ∷ lower_hex (c % 16) ∷ []
    else c ∷ []

unfoldable pub escape_text : Text → Text
unfolding escape
escape_text [] = []
escape_text (c ∷ cs) = escape c ++ escape_text cs

unfoldable pub dumps_text : Text → Text
unfolding escape_text
dumps_text text = 34 ∷ (escape_text text ++ 34 ∷ [])

abbrev pub comma_items : Items → Text → Text
comma_items nil rest = rest
comma_items (item j js) rest = b',' ∷ rest

abbrev pub comma_fields : Fields → Text → Text
comma_fields end rest = rest
comma_fields (field k j fs) rest = b',' ∷ rest

unfoldable mutual
  unfolding dumps_text decimal

  pub dumps : Json → Text
  dumps null = codes "null"
  dumps (num n) = decimal n
  dumps (str text) = dumps_text text
  dumps (arr js) = b'[' ∷ (dumps_items js ++ b']' ∷ [])
  dumps (obj fs) = b'{' ∷ (dumps_fields fs ++ b'}' ∷ [])

  pub dumps_items : Items → Text
  dumps_items nil = []
  dumps_items (item j js) = dumps j ++ comma_items js (dumps_items js)

  pub dumps_fields : Fields → Text
  dumps_fields end = []
  dumps_fields (field k j fs) =
      dumps_text k ++ (b':' ∷ (dumps j ++ comma_fields fs (dumps_fields fs)))
