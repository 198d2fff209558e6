-- ===== src/Generator/Attributes/Parse/Ends.antt =====
-- The loops of `parse_attribute_list` end.
use gentest.Base.{
  ℕ, zero, suc, ◌≤◌, ◌<◌, Option, none, some, List, [], ◌∷◌, ◌++◌, Bytes, All, arith, length,
}
use gentest.Generator.Unquote.{is_space}
use gentest.Generator.Arguments.{split_arguments}
use gentest.Generator.Attributes.{
  ParsedAttribute, Cursor, skip_whitespace, ArgumentScan, Move, closed, goes, opened, scan_step,
  scan_arguments, arguments_at,
}
use gentest.Generator.Attributes.Names.{identifier_at, scope_loop}
use gentest.Generator.Attributes.Parse.{
  skip_comma, after_attribute, arguments_behind, prepend, Item, at_end, out_of_fuel, passed_over,
  attribute, with_arguments, with_scopes, with_name, item_at, next_item, parse_loop,
  parse_attribute_list,
}
use gentest.Generator.Attributes.Names.Ends.{
  advance_while_lem, IsNamed, Shortens, identifier_at-Shortens, Names, scope_loop-Names,
}

scan_arguments_lem :
    (s : ArgumentScan) (inside before rest : Bytes)
    → length (scan_arguments s inside before rest).1.1 ≤ length rest
unfolding scan_arguments
scan_arguments_lem s inside before [] = omega arith
scan_arguments_lem s inside before (ch ∷ rest) =
    step (scan_step s.skip s.raw s before ch (ch ∷ rest))
      λ next. scan_arguments_lem next (inside ++ ch ∷ []) (ch ∷ before) rest
  where
    moved : Move → List Bytes × Cursor
    moved move = elim move [
      | closed ↦ (split_arguments inside, (ch ∷ before, rest))
      | goes next ↦ scan_arguments next (inside ++ ch ∷ []) (ch ∷ before) rest
    ]

    step :
        (move : Move)
        → ((next : ArgumentScan)
            → length (scan_arguments next (inside ++ ch ∷ []) (ch ∷ before) rest).1.1 ≤ length rest)
        → length (moved move).1.1 ≤ suc (length rest)
    step closed again = omega arith
    step (goes next) again = omega (arith, again next)

arguments_at_lem : (cursor : Cursor) → length (arguments_at cursor).1.1 ≤ length cursor.1
unfolding arguments_at
arguments_at_lem (before, []) = omega arith
arguments_at_lem (before, ch ∷ rest) =
    ground (arith, scan_arguments_lem opened [] (ch ∷ before) rest)

arguments_behind_lem : (cursor : Cursor) → length (arguments_behind cursor).1.1 ≤ length cursor.1
unfolding arguments_behind
arguments_behind_lem (before, rest) =
    omega (
      arith,
      advance_while_lem is_space before rest,
      arguments_at_lem (skip_whitespace before rest),
    )

skip_comma_lem : (cursor : Cursor) → length (skip_comma cursor).1 ≤ length cursor.1
unfolding skip_comma
skip_comma_lem (before, []) = omega arith
skip_comma_lem (before, c ∷ rest) = ground arith

after_attribute_lem : (cursor : Cursor) → length (after_attribute cursor).1 ≤ length cursor.1
unfolding after_attribute
after_attribute_lem (before, rest) =
    omega
      (arith, advance_while_lem is_space before rest, skip_comma_lem (skip_whitespace before rest))

-- An iteration ends the list, or goes on behind at least one character of it.
abbrev Goes : ℕ → Item → Type 0
Goes size at_end = Unit
Goes size out_of_fuel = ⊥
Goes size (passed_over next) = length next.1 < size
Goes size (attribute parsed next) = IsNamed parsed.name × length next.1 < size

Goes-≤ : (m n : ℕ) (item : Item) → m ≤ n → Goes m item → Goes n item
Goes-≤ m n at_end h g = tt
Goes-≤ m n out_of_fuel h g = g
Goes-≤ m n (passed_over next) h g = omega (arith, g)
Goes-≤ m n (attribute parsed next) h g = (g.0, omega (arith, g.1))

with_scopes-Goes :
    (size : ℕ) (found : Option (Bytes × Cursor))
    → Names size found
    → Goes (suc size) (with_scopes found)
unfolding with_scopes with_arguments
with_scopes-Goes size none h = h
with_scopes-Goes size (some (name, cursor)) h = (
  h.0,
  omega (arith, h.1, arguments_behind_lem cursor, after_attribute_lem (arguments_behind cursor).1),
)

item_at-Goes :
    (fuel : ℕ) (cursor : Cursor)
    → length cursor.1 < fuel
    → Goes (length cursor.1) (item_at fuel cursor)
unfolding item_at with_name
item_at-Goes fuel (before, []) h = tt
item_at-Goes fuel (before, c ∷ rest) h =
    step (identifier_at (before, c ∷ rest)) (identifier_at-Shortens (before, c ∷ rest))
  where
    step :
        (found : Option (Bytes × Cursor))
        → Shortens (suc (length rest)) found
        → Goes (suc (length rest)) (with_name fuel (c ∷ before, rest) found)
    step none s = omega arith
    step (some (name, cursor)) s =
        with_scopes-Goes (length rest) (scope_loop fuel name cursor)
          (scope_loop-Names fuel name cursor (length rest) s.0 (omega arith) (omega arith))

-- The parser ended, and each attribute is named.
abbrev pub Parsed : Option (List ParsedAttribute) → Type 0
Parsed none = ⊥
Parsed (some attributes) = All (λ a. IsNamed a.name) attributes

prepend-Parsed :
    (parsed : ParsedAttribute) (more : Option (List ParsedAttribute))
    → IsNamed parsed.name
    → Parsed more
    → Parsed (prepend parsed more)
unfolding prepend
prepend-Parsed parsed none h k = k
prepend-Parsed parsed (some attributes) h k = (h, k)

next_item-Goes :
    (fuel : ℕ) (cursor : Cursor)
    → length cursor.1 < fuel
    → Goes (length cursor.1) (next_item fuel cursor)
unfolding next_item
next_item-Goes fuel (before, rest) h =
    let shorter : length (skip_whitespace before rest).1 ≤ length rest =
      advance_while_lem is_space before rest in
    Goes-≤ (length (skip_whitespace before rest).1) (length rest)
      (item_at fuel (skip_whitespace before rest)) shorter
      (item_at-Goes fuel (skip_whitespace before rest) (omega arith))

parse_loop-Parsed :
    (fuel : ℕ) (cursor : Cursor) → length cursor.1 < fuel → Parsed (parse_loop fuel cursor)
unfolding parse_loop
parse_loop-Parsed zero cursor h = absurd (omega arith)
parse_loop-Parsed (suc fuel) cursor h =
    step (next_item (suc fuel) cursor) (next_item-Goes (suc fuel) cursor h)
      λ next k. parse_loop-Parsed fuel next (omega (arith, k, h))
  where
    step :
        (item : Item)
        → Goes (length cursor.1) item
        → ((next : Cursor) → length next.1 < length cursor.1 → Parsed (parse_loop fuel next))
        → Parsed (elim item [
          | at_end ↦ some []
          | out_of_fuel ↦ none
          | passed_over next ↦ parse_loop fuel next
          | attribute parsed next ↦ prepend parsed (parse_loop fuel next)
        ])
    step at_end g again = tt
    step out_of_fuel g again = g
    step (passed_over next) g again = again next g
    step (attribute parsed next) g again =
        prepend-Parsed parsed (parse_loop fuel next) g.0 (again next g.1)

-- On every text the parser ends within its fuel, and the name of each attribute that it finds begins
-- with a letter or an underscore.
pub parse_attribute_list-Parsed : (list : Bytes) → Parsed (parse_attribute_list list)
unfolding parse_attribute_list
parse_attribute_list-Parsed list = parse_loop-Parsed (suc (length list)) ([], list) (omega arith)
