-- ===== src/Escape/Json.antt =====
-- `append_json_string` and the functions on it in src/runner_orchestrator.cpp.
pub mod Body
use Prim.Native.Nat.{bit_and, bit_or}
use mathlib.Core.Option
use gentest.Base.{
  ℕ, zero, suc, ◌+◌, ◌-◌, ◌*◌, ◌/◌, ◌%◌, ◌^◌, ◌≤◌, ◌<◌, ◌≡◌, refl, sym, ap, ◌∙◌, ◌≢◌, Bool, true,
  false, not, ◌&&◌, ◌||◌, Option, none, some, List, [], ◌∷◌, ◌++◌, Bytes, codes, ◌==◌, ==_iff, ltb,
  leb, arith, if◌then◌else◌, if-cases, length, drop,
}
use gentest.Escape.Xml.{take}

abbrev pub quote : ℕ
quote = b'"'

abbrev pub backslash : ℕ
backslash = 92

abbrev pub hex_small : ℕ → ℕ
hex_small d = if ltb d 10 then b'0' + d else b'a' + (d - 10)

-- `\u{:04x}` of a number below 32.
unfoldable pub control_escape : ℕ → Bytes
control_escape ch = backslash ∷ b'u' ∷ b'0' ∷ b'0' ∷ hex_small (ch / 16) ∷ hex_small (ch % 16) ∷ []

-- The length of the sequence that a byte begins, and its bits; a length of 0 is no beginning.
unfoldable pub sequence_start : ℕ → ℕ × ℕ
sequence_start ch =
    if ltb ch 0x80
    then (1, ch)
    else if bit_and ch 0xE0 == 0xC0
    then (2, bit_and ch 0x1F)
    else if bit_and ch 0xF0 == 0xE0
    then (3, bit_and ch 0x0F)
    else if bit_and ch 0xF8 == 0xF0
    then (4, bit_and ch 0x07)
    else (0, 0)

-- The code point behind `n` continuation bytes; `none` where one is missing or is none.
unfoldable pub continuations : ℕ → ℕ → Bytes → Option ℕ
continuations zero code_point s = some code_point
continuations (suc n) code_point [] = none
continuations (suc n) code_point (c ∷ s) =
    let rest = continuations n (bit_or (code_point * 2 ^ 6 % 2 ^ 32) (bit_and c 0x3F)) s in
    if bit_and c 0xC0 == 0x80 then rest else none

-- Not the shortest form, a surrogate, or too large.
unfoldable pub is_malformed : ℕ → ℕ → Bool
is_malformed sequence_length code_point =
    ((sequence_length == 2) && ltb code_point 0x80)
    || ((sequence_length == 3) && ltb code_point 0x800)
    || ((sequence_length == 4) && ltb code_point 0x10000)
    || (leb 0xD800 code_point && leb code_point 0xDFFF)
    || ltb 0x10FFFF code_point

-- What is written, and how many bytes are read.
abbrev pub Piece : Type 0
Piece = Bytes × ℕ

abbrev pub replaced : Piece
replaced = (backslash ∷ codes "uFFFD", 1)

unfoldable pub checked_piece : ℕ → ℕ → Bytes → Option ℕ → Piece
unfolding is_malformed
checked_piece n ch s none = replaced
checked_piece n ch s (some code_point) =
    if is_malformed (suc n) code_point then replaced else (ch ∷ take n s, suc n)

unfoldable pub sequence_piece : ℕ → ℕ → ℕ → Bytes → Piece
unfolding checked_piece continuations
sequence_piece zero code_point ch s = replaced
sequence_piece (suc n) code_point ch s = checked_piece n ch s (continuations n code_point s)

abbrev pub pair : ℕ → Piece
pair c = (backslash ∷ c ∷ [], 1)

-- The switch on the byte at `index`, with what follows it.
unfoldable pub json_piece : ℕ → Bytes → Piece
unfolding control_escape sequence_piece sequence_start
json_piece ch s =
    if ch == quote
    then pair quote
    else if ch == backslash
    then pair backslash
    else if ch == 8
    then pair b'b'
    else if ch == 12
    then pair b'f'
    else if ch == 10
    then pair b'n'
    else if ch == 13
    then pair b'r'
    else if ch == 9
    then pair b't'
    else if ltb ch 0x20
    then (control_escape ch, 1)
    else sequence_piece (sequence_start ch).0 (sequence_start ch).1 ch s

-- `none` is a run out of fuel.
unfoldable pub json_loop : ℕ → Bytes → Option Bytes
unfolding json_piece
json_loop fuel [] = some []
json_loop zero (ch ∷ s) = none
json_loop (suc fuel) (ch ∷ s) =
    let (piece, width) = json_piece ch s in
    Option.map (λ out. piece ++ out) (json_loop fuel (drop width (ch ∷ s)))

unfoldable pub append_json_string : Bytes → Option Bytes
unfolding json_loop
append_json_string value =
    Option.map (λ out. quote ∷ (out ++ quote ∷ [])) (json_loop (length value) value)

unfoldable pub append_json_key : Bytes → Option Bytes
unfolding append_json_string
append_json_key key = Option.map (λ out. out ++ b':' ∷ []) (append_json_string key)
