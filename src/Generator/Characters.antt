-- ===== src/Generator/Characters.antt =====
-- The tests on characters of tools/src/parse_core.cpp, in the C locale, and what they tell of the
-- text around a place of a list of attributes. A place is given by the text before it, its last
-- character first, and the text from it on.
use gentest.Base.{ℕ, Bool, true, false, not, ◌&&◌, ◌||◌, [], ◌∷◌, Bytes, ◌==◌, leb, if◌then◌else◌}
use gentest.Generator.Unquote.{is_space, trim_front}

-- std::isalpha.
unfoldable pub is_alpha : ℕ → Bool
is_alpha c = (leb b'A' c && leb c b'Z') || (leb b'a' c && leb c b'z')

-- std::isalnum.
unfoldable pub is_alnum : ℕ → Bool
unfolding is_alpha
is_alnum c = is_alpha c || (leb b'0' c && leb c b'9')

unfoldable pub is_identifier_char : ℕ → Bool
unfolding is_alnum
is_identifier_char ch = is_alnum ch || ch == b'_' || ch == b'-'

unfoldable pub is_word_char : ℕ → Bool
unfolding is_alnum
is_word_char ch = is_alnum ch || ch == b'_'

-- The test on the first character of a name, written out at each of its uses.
unfoldable pub is_name_start : ℕ → Bool
unfolding is_alpha
is_name_start c = is_alpha c || c == b'_'

unfoldable pub is_likely_template_left : ℕ → Bool
unfolding is_alpha
is_likely_template_left ch =
    is_alpha ch || ch == b'_' || ch == b':' || ch == b'>' || ch == b')' || ch == b']'

unfoldable pub is_likely_template_right : ℕ → Bool
unfolding is_alnum
is_likely_template_right ch =
    is_alnum ch || ch == b'_' || ch == b':' || ch == b'(' || ch == b'+' || ch == b'-' || ch == b'\''

-- The last character that is not a space, from the front; 0 where there is none.
unfoldable pub last_non_space : ℕ → Bytes → ℕ
unfolding is_space
last_non_space found [] = found
last_non_space found (c ∷ text) = last_non_space (if is_space c then found else c) text

unfoldable pub previous_non_space : Bytes → ℕ
unfolding last_non_space
previous_non_space = last_non_space 0

unfoldable pub next_non_space : Bytes → ℕ
unfolding is_space
next_non_space [] = 0
next_non_space (c ∷ text) = let next = next_non_space text in if is_space c then next else c

-- The first characters, as long as they pass the test.
abbrev pub take_while : (ℕ → Bool) → Bytes → Bytes
take_while p [] = []
take_while p (c ∷ text) = let more = take_while p text in if p c then c ∷ more else []

no_word_before : Bytes → Bool
unfolding is_word_char
no_word_before [] = true
no_word_before (c ∷ before) = not (is_word_char c)

-- The second test, where the character before is the one given.
u8_prefix : ℕ → Bytes → Bool
unfolding no_word_before
u8_prefix a [] = false
u8_prefix a (b ∷ before) = if b == b'u' && a == b'8' then no_word_before before else false

unfoldable pub is_char_literal_prefix : Bytes → Bool
unfolding no_word_before u8_prefix
is_char_literal_prefix [] = false
is_char_literal_prefix (a ∷ before) =
    if a == b'L' || a == b'u' || a == b'U' then no_word_before before else u8_prefix a before

-- The first character of a text, 0 where it is empty.
abbrev pub first_char : Bytes → ℕ
first_char [] = 0
first_char (c ∷ text) = c

unfoldable pub should_enter_char_literal : Bytes → Bytes → Bool
unfolding is_char_literal_prefix is_alnum
should_enter_char_literal before [] = false
should_enter_char_literal before (c ∷ rest) =
    if not (c == b'\'')
    then false
    else if is_char_literal_prefix before
    then true
    else if first_char rest == 0
    then false
    else not (is_alnum (first_char before) && is_alnum (first_char rest))

unfoldable pub token_from : Bytes → Bytes
unfolding is_name_start is_word_char
token_from [] = []
token_from (first ∷ text) = if is_name_start first then first ∷ take_while is_word_char text else []

unfoldable pub next_identifier_token : Bytes → Bytes
unfolding trim_front token_from
next_identifier_token text = token_from (trim_front text)
