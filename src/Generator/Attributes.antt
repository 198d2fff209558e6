-- ===== src/Generator/Attributes.antt =====
-- The pieces of `parse_attribute_list` of tools/src/parse_core.cpp: the places of a list, raw string
-- literals, and the arguments of one attribute.
pub mod Names
pub mod Parse
pub mod Scanned
use gentest.Base.{
  ℕ, zero, suc, ◌+◌, ◌-◌, Bool, true, false, not, ◌&&◌, ◌||◌, Option, none, some, List, [], ◌∷◌,
  ◌++◌, Bytes, codes, ◌==◌, bytes_eq, strip_prefix, if◌then◌else◌, length,
}
use gentest.Generator.Unquote.{is_space}
use gentest.Generator.Characters.{
  is_identifier_char, is_name_start, take_while, should_enter_char_literal,
}
use gentest.Generator.Literal.{
  Kind, quote, apostrophe, open_paren, close_paren, char_kind, Literal, outside, in_string, in_char,
  within,
}
use gentest.Generator.Arguments.{split_arguments}

pub record ParsedAttribute : Type 0 where
  pub name : Bytes
  pub arguments : List Bytes

-- An index into the list: the text before it, its last character first, and the text from it on.
abbrev pub Cursor : Type 0
Cursor = Bytes × Bytes

-- Over the characters that pass the test.
unfoldable pub advance_while : (ℕ → Bool) → Bytes → Bytes → Cursor
advance_while p before [] = (before, [])
advance_while p before (c ∷ rest) =
    let more = advance_while p (c ∷ before) rest in if p c then more else (before, c ∷ rest)

abbrev pub skip_whitespace : Bytes → Bytes → Cursor
skip_whitespace = advance_while is_space

pub record RawStringStart : Type 0 where
  pub prefix_length : ℕ
  pub delimiter : Bytes

-- The loop over the delimiter: what stands before the `(`.
unfoldable pub raw_delimiter : Bytes → Option Bytes
unfolding is_space
raw_delimiter [] = none
raw_delimiter (ch ∷ text) = elim (raw_delimiter text) [
  | none ↦ if ch == b'(' then some [] else none
  | some more ↦
      if ch == b'('
      then some []
      else if ch == b'\\' || ch == b')' || is_space ch
      then none
      else some (ch ∷ more)
]

-- The text behind the first of the prefixes that the text has.
unfoldable pub after_prefix : List Bytes → Bytes → Option Bytes
unfolding strip_prefix
after_prefix [] text = none
after_prefix (prefix ∷ prefixes) text = elim (strip_prefix prefix text) [
  | none ↦ after_prefix prefixes text
  | some rest ↦ some rest
]

abbrev pub raw_prefixes : List Bytes
raw_prefixes = codes "R\"" ∷ codes "uR\"" ∷ codes "UR\"" ∷ codes "LR\"" ∷ codes "u8R\"" ∷ []

raw_start_at : ℕ → Bytes → Option Bytes → Option RawStringStart
raw_start_at size rest none = none
raw_start_at size rest (some delimiter) =
    some
      (record { prefix_length = size - length rest + length delimiter + 1; delimiter = delimiter })

raw_start_after : ℕ → Option Bytes → Option RawStringStart
unfolding raw_start_at raw_delimiter
raw_start_after size none = none
raw_start_after size (some rest) = raw_start_at size rest (raw_delimiter rest)

unfoldable pub detect_raw_string_start : Bytes → Option RawStringStart
unfolding raw_start_after after_prefix
detect_raw_string_start text = raw_start_after (length text) (after_prefix raw_prefixes text)

unfoldable pub raw_string_closes_here : Bytes → Bytes → Bool
unfolding strip_prefix
raw_string_closes_here text delimiter = elim (strip_prefix (b')' ∷ delimiter ++ b'"' ∷ []) text) [
  | none ↦ false
  | some rest ↦ true
]

-- The local variables of the loop behind the `(`, without the text read since then. The loop still
-- passes over `skip` characters, by which the source advances its index at once.
pub record ArgumentScan : Type 0 where
  pub skip : ℕ
  pub raw : Option Bytes
  pub literal : Literal
  pub depth : ℕ

-- The body of the loop ends the arguments or goes on.
pub data Move : Type 0 where
  closed : Move
  goes : ArgumentScan → Move

abbrev pub go_on : Literal → ℕ → Move
go_on literal depth = goes (record { skip = 0; raw = none; literal = literal; depth = depth })

unfoldable pub scan_raw : ArgumentScan → Bytes → Bytes → Move
unfolding raw_string_closes_here
scan_raw s delimiter text =
    if raw_string_closes_here text delimiter
    then goes (record s { skip = length delimiter + 1; raw = none })
    else goes s

unfoldable pub scan_close : ℕ → Move
scan_close zero = closed
scan_close (suc depth) = go_on outside (suc depth)

unfoldable pub scan_kind : Kind → ℕ → Bytes → Bytes → Move
unfolding should_enter_char_literal scan_close
scan_kind quote depth before text = go_on (in_string false) depth
scan_kind apostrophe depth before text =
    go_on (if should_enter_char_literal before text then in_char false else outside) depth
scan_kind open_paren depth before text = go_on outside (suc depth)
scan_kind close_paren depth before text = scan_close (depth - 1)
scan_kind _ depth before text = go_on outside depth

unfoldable pub scan_outside : Option RawStringStart → ℕ → Bytes → ℕ → Bytes → Move
unfolding scan_kind char_kind
scan_outside (some start) depth before ch text = goes (record {
  skip = start.prefix_length - 1;
  raw = some start.delimiter;
  literal = outside;
  depth = depth;
})
scan_outside none depth before ch text = scan_kind (char_kind ch) depth before text

unfoldable pub scan_literal : Literal → ℕ → Bytes → ℕ → Bytes → Move
unfolding within scan_outside detect_raw_string_start
scan_literal (in_string escape) depth before ch text = go_on (within b'"' in_string escape ch) depth
scan_literal (in_char escape) depth before ch text = go_on (within b'\'' in_char escape ch) depth
scan_literal outside depth before ch text =
    scan_outside (detect_raw_string_start text) depth before ch text

-- The body, at a character and with the text from it on.
unfoldable pub scan_step : ℕ → Option Bytes → ArgumentScan → Bytes → ℕ → Bytes → Move
unfolding scan_raw scan_literal
scan_step (suc skip) raw s before ch text = goes (record s { skip = skip })
scan_step zero (some delimiter) s before ch text = scan_raw s delimiter text
scan_step zero none s before ch text = scan_literal s.literal s.depth before ch text

-- The loop, with the text read since the `(`: the arguments, and the index behind the `)`.
unfoldable pub scan_arguments : ArgumentScan → Bytes → Bytes → Bytes → List Bytes × Cursor
unfolding split_arguments scan_step
scan_arguments s inside before [] = ([], (before, []))
scan_arguments s inside before (ch ∷ rest) = elim (scan_step s.skip s.raw s before ch (ch ∷ rest)) [
  | closed ↦ (split_arguments inside, (ch ∷ before, rest))
  | goes next ↦ scan_arguments next (inside ++ ch ∷ []) (ch ∷ before) rest
]

abbrev pub opened : ArgumentScan
opened = record { skip = 0; raw = none; literal = outside; depth = 1 }

-- A `(` at the index and what it opens, if there is one.
unfoldable pub arguments_at : Cursor → List Bytes × Cursor
unfolding scan_arguments
arguments_at (before, []) = ([], (before, []))
arguments_at (before, ch ∷ rest) =
    let scanned = scan_arguments opened [] (ch ∷ before) rest in
    if ch == b'(' then scanned else ([], (before, ch ∷ rest))
