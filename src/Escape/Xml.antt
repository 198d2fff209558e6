-- ===== src/Escape/Xml.antt =====
-- The XML text functions of src/runner_reporting.cpp: a strict UTF-8 decoder, the replacement of what
-- XML does not allow, and the escaping of markup. A position in a text is the text from there on.
pub mod Sanitize
use Prim.Native.Nat.{bit_and, bit_or}
use mathlib.Core.Option
use gentest.Base.{
  ℕ, zero, suc, ◌+◌, ◌*◌, ◌^◌, ◌≤◌, ◌<◌, ◌≡◌, refl, sym, ap, subst, ◌∙◌, ◌≢◌, Bool, true, false,
  not, ◌&&◌, ◌||◌, Option, none, some, List, [], ◌∷◌, ◌++◌, Bytes, codes, ◌==◌, ==_iff, ltb, leb,
  arith, if◌then◌else◌, if-cases, length, drop, All, All-append,
}

pub record Utf8DecodeResult : Type 0 where
  pub code_point : ℕ
  pub width : ℕ
  pub valid : Bool

-- `return {}`.
abbrev pub undecoded : Utf8DecodeResult
undecoded = record { code_point = 0; width = 1; valid = false }

abbrev pub decoded_as : ℕ → ℕ → Utf8DecodeResult
decoded_as code_point width = record { code_point = code_point; width = width; valid = true }

unfoldable pub is_xml_char : ℕ → Bool
is_xml_char code_point =
    (code_point == 0x09)
    || (code_point == 0x0A)
    || (code_point == 0x0D)
    || (leb 0x20 code_point && leb code_point 0xD7FF)
    || (leb 0xE000 code_point && leb code_point 0xFFFD)
    || (leb 0x10000 code_point && leb code_point 0x10FFFF)

unfoldable pub is_utf8_continuation : ℕ → Bool
is_utf8_continuation ch = bit_and ch 0xC0 == 0x80

unfoldable pub decode_two : ℕ → Bytes → Utf8DecodeResult
unfolding is_utf8_continuation
decode_two first [] = undecoded
decode_two first (second ∷ s) =
    if not (is_utf8_continuation second)
    then undecoded
    else decoded_as (bit_or (bit_and first 0x1F * 2 ^ 6) (bit_and second 0x3F)) 2

unfoldable pub decode_three : ℕ → Bytes → Utf8DecodeResult
unfolding is_utf8_continuation
decode_three first (second ∷ third ∷ s) =
    if not (is_utf8_continuation second) || not (is_utf8_continuation third)
    then undecoded
    else if ((first == 0xE0) && ltb second 0xA0) || ((first == 0xED) && leb 0xA0 second)
    then undecoded
    else decoded_as
        (bit_or (bit_or (bit_and first 0x0F * 2 ^ 12) (bit_and second 0x3F * 2 ^ 6))
          (bit_and third 0x3F))
        3
decode_three first _ = undecoded

unfoldable pub decode_four : ℕ → Bytes → Utf8DecodeResult
unfolding is_utf8_continuation
decode_four first (second ∷ third ∷ fourth ∷ s) =
    if not (is_utf8_continuation second)
      || not (is_utf8_continuation third)
      || not (is_utf8_continuation fourth)
    then undecoded
    else if ((first == 0xF0) && ltb second 0x90) || ((first == 0xF4) && leb 0x90 second)
    then undecoded
    else decoded_as
        (bit_or
          (bit_or (bit_or (bit_and first 0x07 * 2 ^ 18) (bit_and second 0x3F * 2 ^ 12))
            (bit_and third 0x3F * 2 ^ 6))
          (bit_and fourth 0x3F))
        4
decode_four first _ = undecoded

-- The text at `pos`, which is not at the end: its first byte, and the rest.
unfoldable pub decode_utf8 : ℕ → Bytes → Utf8DecodeResult
unfolding decode_two decode_three decode_four
decode_utf8 first s =
    if ltb first 0x80
    then decoded_as first 1
    else if ltb first 0xC2
    then undecoded
    else if leb first 0xDF
    then decode_two first s
    else if leb first 0xEF
    then decode_three first s
    else if leb first 0xF4
    then decode_four first s
    else undecoded

abbrev pub take : ℕ → Bytes → Bytes
take zero s = []
take (suc n) [] = []
take (suc n) (c ∷ s) = c ∷ take n s

-- `none` is a run out of fuel.
unfoldable pub sanitize_loop : ℕ → Bytes → Option Bytes
unfolding decode_utf8 is_xml_char
sanitize_loop fuel [] = some []
sanitize_loop zero (c ∷ s) = none
sanitize_loop (suc fuel) (c ∷ s) =
    let decoded = decode_utf8 c s in
    let rest = sanitize_loop fuel (drop decoded.width (c ∷ s)) in
    if not decoded.valid || not (is_xml_char decoded.code_point)
    then Option.map (λ out. b'?' ∷ out) rest
    else Option.map (λ out. take decoded.width (c ∷ s) ++ out) rest

unfoldable pub sanitize_xml_text : Bytes → Option Bytes
unfolding sanitize_loop
sanitize_xml_text s = sanitize_loop (length s) s

-- The switch on one byte.
unfoldable pub markup_byte : ℕ → Bytes
markup_byte ch =
    if ch == b'&'
    then codes "&amp;"
    else if ch == b'<'
    then codes "&lt;"
    else if ch == b'>'
    then codes "&gt;"
    else if ch == b'"'
    then codes "&quot;"
    else ch ∷ []

unfoldable pub escape_markup : Bytes → Bytes
unfolding markup_byte
escape_markup [] = []
escape_markup (ch ∷ s) = markup_byte ch ++ escape_markup s

unfoldable pub escape_xml : Bytes → Option Bytes
unfolding sanitize_xml_text escape_markup
escape_xml s = Option.map escape_markup (sanitize_xml_text s)
