-- ===== src/Generator/Literal.antt =====
-- What the three loops of tools/src/parse_core.cpp share: the characters they switch on, and the
-- flags `in_string`, `in_char` and `escape_next` of a loop, of which the last is set only together
-- with one of the others.
use gentest.Base.{ℕ, Bool, true, false, ◌||◌, ◌==◌, if◌then◌else◌}

pub data Kind : Type 0 where
  quote apostrophe open_paren open_other close_paren close_other left right comma other : Kind

unfoldable pub char_kind : ℕ → Kind
char_kind ch =
    if ch == b'"'
    then quote
    else if ch == b'\''
    then apostrophe
    else if ch == b'('
    then open_paren
    else if ch == b'[' || ch == b'{'
    then open_other
    else if ch == b')'
    then close_paren
    else if ch == b']' || ch == b'}'
    then close_other
    else if ch == b'<'
    then left
    else if ch == b'>'
    then right
    else if ch == b','
    then comma
    else other

-- Outside of literals, or inside one, with `escape_next`.
pub data Literal : Type 0 where
  outside : Literal
  in_string : Bool → Literal
  in_char : Bool → Literal

-- One character inside a literal that the given character closes.
unfoldable pub within : ℕ → (Bool → Literal) → Bool → ℕ → Literal
within closing literal true ch = literal false
within closing literal false ch =
    if ch == b'\\' then literal true else if ch == closing then outside else literal false
