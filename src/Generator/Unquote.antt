-- ===== src/Generator/Unquote.antt =====
-- `trim_copy` and `unquote` of tools/src/parse_core.cpp, in the C locale.
pub mod Quoted
use gentest.Base.{
  ℕ, Bool, true, false, ◌&&◌, ◌||◌, Option, none, some, List, [], ◌∷◌, ◌++◌, Bytes, ◌==◌, leb,
  if◌then◌else◌, is_empty, length,
}

-- std::isspace.
unfoldable pub is_space : ℕ → Bool
is_space c = (c == b' ') || (leb 9 c && leb c 13)

unfoldable pub trim_front : Bytes → Bytes
unfolding is_space
trim_front [] = []
trim_front (c ∷ s) = let rest = trim_front s in if is_space c then rest else c ∷ s

-- What is left when spaces are taken from the back.
unfoldable pub trim_back : Bytes → Bytes
unfolding is_space
trim_back [] = []
trim_back (c ∷ s) = let rest = trim_back s in if is_empty rest && is_space c then [] else c ∷ rest

unfoldable pub trim_copy : Bytes → Bytes
unfolding trim_front trim_back
trim_copy text = trim_back (trim_front text)

-- The character that an escape stands for.
unfoldable pub escaped : ℕ → ℕ
escaped ch = if ch == b'n' then 10 else (if ch == b'r' then 13 else (if ch == b't' then 9 else ch))

-- The loop, with `escape`, over what stands in front of the last character.
unfoldable pub decode : Bool → Bytes → Bytes
unfolding escaped
decode false [] = []
decode true [] = b'\\' ∷ []
decode true (ch ∷ s) = escaped ch ∷ decode false s
decode false (ch ∷ s) =
    let skipped = decode true s in
    let kept = ch ∷ decode false s in if ch == b'\\' then skipped else kept

-- The text without its last character, which is a quote, if it is one.
unfoldable pub before_quote : Bytes → Option Bytes
before_quote [] = none
before_quote (c ∷ s) = front c s (before_quote s)
  where
    front : ℕ → Bytes → Option Bytes → Option Bytes
    front c [] rest = if c == b'"' then some [] else none
    front c (d ∷ s) none = none
    front c (d ∷ s) (some body) = some (c ∷ body)

abbrev decoded_or : Bytes → Option Bytes → Bytes
decoded_or trimmed none = trimmed
decoded_or trimmed (some body) = decode false body

unfoldable pub unquote_trimmed : Bytes → Bytes
unfolding before_quote decode
unquote_trimmed [] = []
unquote_trimmed (c ∷ s) = if c == b'"' then decoded_or (c ∷ s) (before_quote s) else c ∷ s

unfoldable pub unquote : Bytes → Bytes
unfolding trim_copy unquote_trimmed
unquote value = unquote_trimmed (trim_copy value)
