-- ===== src/Generator/Attributes/Parse.antt =====
-- `parse_attribute_list` of tools/src/parse_core.cpp. Each iteration of its two outer loops reads at
-- least one character, so that the length of the list and one more is fuel enough for them; with too
-- little the result is none.
pub mod Ends
pub mod Printed
pub mod Read
pub mod Iterate
pub mod RoundTrip
use gentest.Base.{
  ℕ, zero, suc, Bool, true, false, Option, none, some, List, [], ◌∷◌, Bytes, ◌==◌, if◌then◌else◌,
  length,
}
use gentest.Generator.Attributes.{
  ParsedAttribute, Cursor, advance_while, skip_whitespace, arguments_at,
}
use gentest.Generator.Attributes.Names.{identifier_at, scope_loop}

-- Over a comma, if there is one.
unfoldable pub skip_comma : Cursor → Cursor
skip_comma (before, []) = (before, [])
skip_comma (before, c ∷ rest) = if c == b',' then (c ∷ before, rest) else (before, c ∷ rest)

-- What follows the attribute.
unfoldable pub after_attribute : Cursor → Cursor
unfolding skip_comma advance_while
after_attribute (before, rest) = skip_comma (skip_whitespace before rest)

-- The arguments at an index, behind spaces.
unfoldable pub arguments_behind : Cursor → List Bytes × Cursor
unfolding arguments_at advance_while
arguments_behind (before, rest) = arguments_at (skip_whitespace before rest)

-- What one iteration of the outer loop comes to, behind the spaces: the end of the list, a character
-- that starts no name, an attribute, or too little fuel; with the index behind it.
pub data Item : Type 0 where
  at_end out_of_fuel : Item
  passed_over : Cursor → Item
  attribute : ParsedAttribute → Cursor → Item

unfoldable pub with_arguments : Bytes → List Bytes × Cursor → Item
unfolding after_attribute
with_arguments name (arguments, cursor) =
    attribute (record { name = name; arguments = arguments }) (after_attribute cursor)

unfoldable pub with_scopes : Option (Bytes × Cursor) → Item
unfolding with_arguments arguments_behind
with_scopes none = out_of_fuel
with_scopes (some (name, cursor)) = with_arguments name (arguments_behind cursor)

unfoldable pub with_name : ℕ → Cursor → Option (Bytes × Cursor) → Item
unfolding with_scopes scope_loop
with_name fuel next none = passed_over next
with_name fuel next (some (name, cursor)) = with_scopes (scope_loop fuel name cursor)

unfoldable pub item_at : ℕ → Cursor → Item
unfolding with_name identifier_at
item_at fuel (before, []) = at_end
item_at fuel (before, c ∷ rest) =
    with_name fuel (c ∷ before, rest) (identifier_at (before, c ∷ rest))

unfoldable pub next_item : ℕ → Cursor → Item
unfolding item_at advance_while
next_item fuel (before, rest) = item_at fuel (skip_whitespace before rest)

unfoldable pub prepend :
    ParsedAttribute → Option (List ParsedAttribute) → Option (List ParsedAttribute)
prepend parsed none = none
prepend parsed (some attributes) = some (parsed ∷ attributes)

-- The outer loop, on fuel.
unfoldable pub parse_loop : ℕ → Cursor → Option (List ParsedAttribute)
unfolding next_item prepend
parse_loop zero cursor = none
parse_loop (suc fuel) cursor = elim (next_item (suc fuel) cursor) [
  | at_end ↦ some []
  | out_of_fuel ↦ none
  | passed_over next ↦ parse_loop fuel next
  | attribute parsed next ↦ prepend parsed (parse_loop fuel next)
]

unfoldable pub parse_attribute_list : Bytes → Option (List ParsedAttribute)
unfolding parse_loop
parse_attribute_list list = parse_loop (suc (length list)) ([], list)
