-- ===== src/Escape/Json/Body.antt =====
-- What `append_json_string` writes is one JSON string literal.
use mathlib.Core.Option
use gentest.Base.{ℕ, ◌≤◌, ◌≡◌, ◌≢◌, Bool, true, ◌&&◌, ◌||◌, Option, [], ◌∷◌, Bytes, ◌==◌, leb}
use gentest.Escape.Json.{quote, backslash, Piece}

-- The characters that stand behind a backslash: a quote, a backslash, a slash, or one of b, f, n, r, t.
abbrev pub is_short_escape : ℕ → Bool
is_short_escape c =
    c == quote
    || c == backslash
    || c == b'/'
    || c == b'b'
    || c == b'f'
    || c == b'n'
    || c == b'r'
    || c == b't'

abbrev pub is_hex : ℕ → Bool
is_hex c = (leb b'0' c && leb c b'9') || (leb b'a' c && leb c b'f') || (leb b'A' c && leb c b'F')

-- The inside of a JSON string by the grammar of JSON: a short escape, `\u` with four hexadecimal
-- digits, or a byte that is no quote, no backslash and no control character.
pub data Body : Bytes → Type 0 where
  done : Body []
  short : {c : ℕ} {s : Bytes} → is_short_escape c ≡ true → Body s → Body (backslash ∷ c ∷ s)
  unicode :
      {c d e f : ℕ} {s : Bytes}
      → is_hex c ≡ true
      → is_hex d ≡ true
      → is_hex e ≡ true
      → is_hex f ≡ true
      → Body s
      → Body (backslash ∷ b'u' ∷ c ∷ d ∷ e ∷ f ∷ s)
  plain : {c : ℕ} {s : Bytes} → c ≢ quote → c ≢ backslash → 0x20 ≤ c → Body s → Body (c ∷ s)

abbrev IsPiece : Piece → Type 0
IsPiece p = Body p.0 × (1 ≤ p.1)
