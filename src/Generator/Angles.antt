-- ===== src/Generator/Angles.antt =====
-- `has_matching_angle_close` of tools/src/parse_core.cpp: does the `<` in front of a text open the
-- arguments of a template?
use gentest.Base.{
  ℕ, zero, suc, ◌-◌, Bool, true, false, ◌||◌, [], ◌∷◌, Bytes, codes, ◌==◌, bytes_eq, if◌then◌else◌,
  is_empty, length, drop,
}
use gentest.Generator.Unquote.{trim_front}
use gentest.Generator.Characters.{next_non_space, next_identifier_token, should_enter_char_literal}
use gentest.Generator.Literal.{
  quote, apostrophe, open_paren, open_other, close_paren, close_other, left, right, char_kind,
  Literal, outside, in_string, in_char, within,
}

-- The `default` of the switch, on the token behind the `>`.
unfoldable pub token_follows : Bytes → Bytes → Bool
unfolding next_non_space bytes_eq
token_follows token text =
    if bytes_eq token (codes "const") || bytes_eq token (codes "volatile")
    then true
    else if is_empty token
    then false
    else next_non_space (drop (length token) (trim_front text)) == b'{'

-- The text behind a `>` that is nested in no other.
unfoldable pub closes_template : ℕ → Bytes → Bool
unfolding token_follows next_identifier_token
closes_template follower text =
    if follower == 0
      || follower == b'_'
      || follower == b','
      || follower == b')'
      || follower == b']'
      || follower == b'}'
      || follower == b'{'
      || follower == b'('
      || follower == b':'
      || follower == b';'
      || follower == b'*'
      || follower == b'&'
    then true
    else token_follows (next_identifier_token text) text

-- The loop, with `depth` and `nested_angle`.
unfoldable pub angle_loop : Literal → ℕ → ℕ → Bytes → Bytes → Bool
unfolding char_kind within should_enter_char_literal closes_template
angle_loop literal depth nested_angle before [] = false
angle_loop (in_string escape) depth nested_angle before (ch ∷ rest) =
    angle_loop (within b'"' in_string escape ch) depth nested_angle (ch ∷ before) rest
angle_loop (in_char escape) depth nested_angle before (ch ∷ rest) =
    angle_loop (within b'\'' in_char escape ch) depth nested_angle (ch ∷ before) rest
angle_loop outside depth nested_angle before (ch ∷ rest) = elim (char_kind ch) [
  | quote ↦ angle_loop (in_string false) depth nested_angle (ch ∷ before) rest
  | apostrophe ↦
      let literal =
        if should_enter_char_literal before (ch ∷ rest) then in_char false else outside in
      angle_loop literal depth nested_angle (ch ∷ before) rest
  | open_paren ↦ angle_loop outside (suc depth) nested_angle (ch ∷ before) rest
  | open_other ↦ angle_loop outside (suc depth) nested_angle (ch ∷ before) rest
  | close_paren ↦ angle_loop outside (depth - 1) nested_angle (ch ∷ before) rest
  | close_other ↦ angle_loop outside (depth - 1) nested_angle (ch ∷ before) rest
  | left ↦
      angle_loop outside depth (if depth == 0 then suc nested_angle else nested_angle) (ch ∷ before)
        rest
  | right ↦ elim depth [
    | zero ↦ elim nested_angle [
      | zero ↦ closes_template (next_non_space rest) rest
      | suc nested ↦ angle_loop outside 0 nested (ch ∷ before) rest
    ]
    | suc deeper ↦ angle_loop outside (suc deeper) nested_angle (ch ∷ before) rest
  ]
  | _ ↦ angle_loop outside depth nested_angle (ch ∷ before) rest
]

unfoldable pub has_matching_angle_close : Bytes → Bytes → Bool
unfolding angle_loop
has_matching_angle_close before rest = angle_loop outside 0 0 before rest
