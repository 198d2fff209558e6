-- ===== src/Generator/Validate/Tuple.antt =====
-- `parse_tuple` in `validate_attributes` of tools/src/validate.cpp. The file repeats the helpers of
-- tools/src/parse_core.cpp for it word for word, so that it is written with those; its loop treats
-- every character but a comma as the loop of `split_arguments` does.
use gentest.Base.{
  ℕ, Bool, ◌&&◌, ◌||◌, Option, none, some, List, [], ◌∷◌, ◌++◌, Bytes, ◌==◌, if◌then◌else◌,
  is_empty,
}
use gentest.Generator.Literal.{comma, char_kind, Literal, outside, in_string, in_char}
use gentest.Generator.Arguments.{Split, push_char, split_outside, split_step, no_parts}

-- A space, tab, line feed or carriage return.
abbrev pub is_tuple_space : ℕ → Bool
is_tuple_space c = c == b' ' || c == b'\t' || c == b'\n' || c == b'\r'

unfoldable pub tuple_front : Bytes → Bytes
tuple_front [] = []
tuple_front (c ∷ s) = let rest = tuple_front s in if is_tuple_space c then rest else c ∷ s

unfoldable pub tuple_back : Bytes → Bytes
tuple_back [] = []
tuple_back (c ∷ s) =
    let rest = tuple_back s in if is_empty rest && is_tuple_space c then [] else c ∷ rest

-- What is in front of a `)` that ends the text.
unfoldable pub before_paren : Bytes → Option Bytes
before_paren [] = none
before_paren (c ∷ []) = if c == b')' then some [] else none
before_paren (c ∷ d ∷ s) = elim (before_paren (d ∷ s)) [ none ↦ none | some body ↦ some (c ∷ body) ]

unfoldable pub strip_parens : Bytes → Bytes
unfolding before_paren
strip_parens [] = []
strip_parens (c ∷ s) = elim (before_paren s) [
  | none ↦ c ∷ s
  | some body ↦ if c == b'(' then body else c ∷ s
]

-- The parts with the token, unless it is blank.
unfoldable pub tuple_token : List Bytes → Bytes → List Bytes
unfolding tuple_front tuple_back
tuple_token out cur =
    let token = tuple_back (tuple_front cur) in if is_empty token then out else out ++ token ∷ []

unfoldable pub tuple_comma : Split → Split
unfolding tuple_token
tuple_comma s =
    if s.depth == 0 && s.angle_depth == 0
    then record s { parts = tuple_token s.parts s.current; current = [] }
    else push_char s b',' outside

unfoldable pub tuple_outside : Split → Bytes → ℕ → Bytes → Split
unfolding char_kind tuple_comma split_outside
tuple_outside s before ch rest = elim (char_kind ch) [
  | comma ↦ tuple_comma s
  | _ ↦ split_outside s before ch rest
]

unfoldable pub tuple_step : Literal → Split → Bytes → ℕ → Bytes → Split
unfolding tuple_outside split_step
tuple_step outside s before ch rest = tuple_outside s before ch rest
tuple_step (in_string escape) s before ch rest = split_step (in_string escape) s before ch rest
tuple_step (in_char escape) s before ch rest = split_step (in_char escape) s before ch rest

unfoldable pub tuple_loop : Split → Bytes → Bytes → Split
unfolding tuple_step
tuple_loop s before [] = s
tuple_loop s before (ch ∷ rest) =
    tuple_loop (tuple_step s.literal s before ch rest) (ch ∷ before) rest

unfoldable pub tuple_end : Split → List Bytes
unfolding tuple_token
tuple_end s = tuple_token s.parts s.current

unfoldable pub parse_tuple : Bytes → List Bytes
unfolding tuple_loop tuple_end strip_parens
parse_tuple text = tuple_end (tuple_loop no_parts [] (strip_parens text))
