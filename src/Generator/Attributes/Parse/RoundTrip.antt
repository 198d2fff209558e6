-- ===== src/Generator/Attributes/Parse/RoundTrip.antt =====
-- `parse_attribute_list` on printed attributes.
use gentest.Base.{
  ℕ, zero, suc, ◌<◌, ◌≤◌, ◌≡◌, refl, sym, ap, subst, ◌∙◌, some, List, [], ◌∷◌, ◌++◌, map, Bytes,
  All, arith, length, length-append,
}
use gentest.Generator.Unquote.{is_space}
use gentest.Generator.Attributes.{ParsedAttribute, Cursor, advance_while}
use gentest.Generator.Attributes.Parse.{
  skip_comma, after_attribute, prepend, item_at, next_item, parse_loop, parse_attribute_list,
}
use gentest.Generator.Attributes.Parse.Printed.{
  Attribute, print_scope, print_call, print_attribute, print_others, print_attributes,
  parsed_attribute, IsName, IsWrittenAttribute,
}
use gentest.Generator.Attributes.Parse.Iterate.{Follows, next_item-print_attribute}

parse_loop_next :
    (fuel : ℕ) (cursor : Cursor) (parsed : ParsedAttribute) (attributes : List Attribute)
    → Follows parsed attributes (next_item (suc fuel) cursor)
    → ((before : Bytes)
        → parse_loop fuel (after_attribute (before, print_others attributes))
          ≡ some (map parsed_attribute attributes))
    → parse_loop (suc fuel) cursor ≡ some (parsed ∷ map parsed_attribute attributes)
unfolding parse_loop prepend
parse_loop_next fuel cursor parsed attributes (b, h) again = rw (parse_loop, h) (rw (again b) refl)

after_attribute-print_others :
    (a : Attribute) (attributes : List Attribute) (before : Bytes)
    → after_attribute (before, print_others (a ∷ attributes))
      ≡ (b',' ∷ before, b' ' ∷ (print_attribute a ++ print_others attributes))
unfolding after_attribute skip_comma advance_while is_space
after_attribute-print_others a attributes before = refl

next_item-space :
    (fuel : ℕ) (before t : Bytes)
    → next_item fuel (before, b' ' ∷ t) ≡ next_item fuel (b' ' ∷ before, t)
unfolding next_item advance_while is_space
next_item-space fuel before t = refl

parse_loop-print_others :
    (attributes : List Attribute) (fuel : ℕ) (before : Bytes)
    → All IsWrittenAttribute attributes
    → length attributes < fuel
    → parse_loop fuel (after_attribute (before, print_others attributes))
      ≡ some (map parsed_attribute attributes)
unfolding parse_loop next_item item_at after_attribute skip_comma advance_while
parse_loop-print_others attributes zero before h l = absurd (omega arith)
parse_loop-print_others [] (suc fuel) before h l = refl
parse_loop-print_others (a ∷ attributes) (suc zero) before h l = absurd (omega arith)
parse_loop-print_others (a ∷ attributes) (suc (suc fuel)) before h l =
    ap (parse_loop (suc (suc fuel))) (after_attribute-print_others a attributes before)
    ∙ parse_loop_next (suc fuel) (b',' ∷ before, b' ' ∷ more) (parsed_attribute a) attributes
        (subst (Follows (parsed_attribute a) attributes)
          (sym (next_item-space (suc (suc fuel)) (b',' ∷ before) more))
          (next_item-print_attribute fuel (b' ' ∷ b',' ∷ before) a.scope a.name a.arguments
            attributes h.0.0 h.0.1 h.0.2))
        (λ b. parse_loop-print_others attributes (suc fuel) b h.1 (omega arith))
  where
    more : Bytes
    more = print_attribute a ++ print_others attributes

length-print_others :
    (attributes : List Attribute) → length attributes ≤ length (print_others attributes)
length-print_others [] = omega arith
length-print_others (a ∷ attributes) = omega (
  arith,
  length-append (print_attribute a) (print_others attributes),
  length-print_others attributes,
)

length-print_attribute : (a : Attribute) → IsWrittenAttribute a → 0 < length (print_attribute a)
length-print_attribute a h = omega (
  arith,
  length-append (print_scope a.scope) (a.name ++ print_call a.arguments),
  length-append a.name (print_call a.arguments),
  length_name a.name h.1,
)
  where
    length_name : (name : Bytes) → IsName name → 0 < length name
    length_name [] h = absurd h
    length_name (c ∷ name) h = omega arith

parse_loop-print_attributes :
    (fuel : ℕ) (a : Attribute) (attributes : List Attribute)
    → IsWrittenAttribute a
    → All IsWrittenAttribute attributes
    → length attributes < fuel
    → parse_loop (suc fuel) ([], print_attribute a ++ print_others attributes)
      ≡ some (parsed_attribute a ∷ map parsed_attribute attributes)
parse_loop-print_attributes zero a attributes w h l = absurd (omega arith)
parse_loop-print_attributes (suc fuel) a attributes w h l =
    parse_loop_next (suc fuel) ([], print_attribute a ++ print_others attributes)
      (parsed_attribute a) attributes
      (next_item-print_attribute fuel [] a.scope a.name a.arguments attributes w.0 w.1 w.2)
      (λ b. parse_loop-print_others attributes (suc fuel) b h l)

-- A list of attributes, written with commas and spaces between them, is parsed into them: each with
-- its name, without the scope `gentest` and with any other scope, and with the values of its
-- arguments. A name, and a scope other than `gentest`, is a letter or underscore followed by letters,
-- digits, underscores and dashes. An argument is an ordinary string literal, not a raw one: any text
-- in quotation marks, with a backslash before each quotation mark and backslash of it; or it is a word
-- that is not empty, has no space, quotation mark, bracket or comma, and none of the letters R, u, U
-- and L, which begin the prefixes of literals.
pub parse_attribute_list-print_attributes :
    (attributes : List Attribute)
    → All IsWrittenAttribute attributes
    → parse_attribute_list (print_attributes attributes) ≡ some (map parsed_attribute attributes)
unfolding parse_attribute_list parse_loop next_item item_at advance_while
parse_attribute_list-print_attributes [] h = refl
parse_attribute_list-print_attributes (a ∷ attributes) h =
    parse_loop-print_attributes (length (print_attributes (a ∷ attributes))) a attributes h.0 h.1 (
      omega (
        arith,
        length-append (print_attribute a) (print_others attributes),
        length-print_others attributes,
        length-print_attribute a h.0,
      ))
