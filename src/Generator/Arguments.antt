-- ===== src/Generator/Arguments.antt =====
-- `split_arguments` of tools/src/parse_core.cpp.
pub mod Printed
pub mod Joined
use gentest.Base.{
  ℕ, suc, ◌-◌, Bool, true, false, not, ◌&&◌, ◌||◌, List, [], ◌∷◌, ◌++◌, Bytes, ◌==◌, if◌then◌else◌,
  is_empty,
}
use gentest.Generator.Unquote.{trim_copy, unquote}
use gentest.Generator.Characters.{
  is_likely_template_left, is_likely_template_right, previous_non_space, next_non_space,
  should_enter_char_literal,
}
use gentest.Generator.Literal.{
  Kind, quote, apostrophe, open_paren, open_other, close_paren, close_other, left, right, comma,
  other, char_kind, Literal, outside, in_string, in_char, within,
}
use gentest.Generator.Angles.{has_matching_angle_close}

-- The local variables of the loop.
pub record Split : Type 0 where
  pub parts : List Bytes
  pub current : Bytes
  pub depth : ℕ
  pub angle_depth : ℕ
  pub literal : Literal

abbrev pub push_char : Split → ℕ → Literal → Split
push_char s ch literal = record s { current = s.current ++ ch ∷ []; literal = literal }

-- The tests on the characters around the `<`.
unfoldable pub looks_like_template : ℕ → ℕ → Bool
unfolding is_likely_template_left is_likely_template_right
looks_like_template prev next =
    not (prev == 0)
    && is_likely_template_left prev
    && not (next == 0)
    && not (next == b'<')
    && not (next == b'=')
    && is_likely_template_right next

unfoldable pub should_open_angle : Bytes → Bytes → Bytes → Bool
unfolding previous_non_space next_non_space looks_like_template has_matching_angle_close
should_open_angle current before rest =
    if looks_like_template (previous_non_space current) (next_non_space rest)
    then has_matching_angle_close (b'<' ∷ before) rest
    else false

-- The parts with a token, unless it is empty.
unfoldable pub with_token : List Bytes → Bytes → List Bytes
unfolding unquote
with_token parts token = if is_empty token then parts else parts ++ unquote token ∷ []

unfoldable pub split_comma : Split → Split
unfolding with_token trim_copy
split_comma s =
    if s.depth == 0 && s.angle_depth == 0
    then record s { parts = with_token s.parts (trim_copy s.current); current = [] }
    else push_char s b',' outside

-- The switch.
unfoldable pub split_outside : Split → Bytes → ℕ → Bytes → Split
unfolding char_kind should_enter_char_literal should_open_angle split_comma
split_outside s before ch rest = elim (char_kind ch) [
  | quote ↦ push_char s ch (in_string false)
  | apostrophe ↦
      push_char s ch
        (if should_enter_char_literal before (ch ∷ rest) then in_char false else outside)
  | open_paren ↦ push_char (record s { depth = suc s.depth }) ch outside
  | open_other ↦ push_char (record s { depth = suc s.depth }) ch outside
  | close_paren ↦ push_char (record s { depth = s.depth - 1 }) ch outside
  | close_other ↦ push_char (record s { depth = s.depth - 1 }) ch outside
  | left ↦
      let opened =
        if should_open_angle s.current before rest then suc s.angle_depth else s.angle_depth in
      push_char (record s { angle_depth = opened }) ch outside
  | right ↦ push_char (record s { angle_depth = s.angle_depth - 1 }) ch outside
  | comma ↦ split_comma s
  | other ↦ push_char s ch outside
]

-- The body of the loop.
unfoldable pub split_step : Literal → Split → Bytes → ℕ → Bytes → Split
unfolding split_outside within
split_step (in_string escape) s before ch rest = push_char s ch (within b'"' in_string escape ch)
split_step (in_char escape) s before ch rest = push_char s ch (within b'\'' in_char escape ch)
split_step outside s before ch rest = split_outside s before ch rest

unfoldable pub split_loop : Split → Bytes → Bytes → Split
unfolding split_step
split_loop s before [] = s
split_loop s before (ch ∷ rest) =
    split_loop (split_step s.literal s before ch rest) (ch ∷ before) rest

abbrev pub no_parts : Split
no_parts = record { parts = []; current = []; depth = 0; angle_depth = 0; literal = outside }

-- What follows the loop.
unfoldable pub split_end : Split → List Bytes
unfolding with_token trim_copy
split_end s = with_token s.parts (trim_copy s.current)

unfoldable pub split_arguments : Bytes → List Bytes
unfolding split_loop split_end
split_arguments arguments = split_end (split_loop no_parts [] arguments)
