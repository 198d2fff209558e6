-- ===== src/Generator/Attributes/Names.antt =====
-- The name of one attribute in `parse_attribute_list` of tools/src/parse_core.cpp, with its scopes.
pub mod Ends
use gentest.Base.{
  ℕ, zero, suc, Bool, true, false, ◌&&◌, Option, none, some, [], ◌∷◌, ◌++◌, Bytes, codes, ◌==◌,
  bytes_eq, if◌then◌else◌,
}
use gentest.Generator.Characters.{is_identifier_char, is_name_start, take_while}
use gentest.Generator.Attributes.{Cursor, advance_while, skip_whitespace}

-- A name at the index, and the index behind it.
unfoldable pub identifier_at : Cursor → Option (Bytes × Cursor)
unfolding is_name_start advance_while is_identifier_char
identifier_at (before, []) = none
identifier_at (before, c ∷ rest) =
    if is_name_start c
    then some
        (c ∷ take_while is_identifier_char rest, advance_while is_identifier_char (c ∷ before) rest)
    else none

-- What stands at the index of a scope: `::`, spaces and a name.
unfoldable pub scope_at : Cursor → Option (Bytes × Cursor)
unfolding identifier_at advance_while
scope_at (before, []) = none
scope_at (before, c ∷ []) = none
scope_at (before, c ∷ d ∷ rest) =
    if c == b':' && d == b':' then identifier_at (skip_whitespace (d ∷ c ∷ before) rest) else none

unfoldable pub scoped_name_at : Cursor → Option (Bytes × Cursor)
unfolding scope_at advance_while
scoped_name_at (before, rest) = scope_at (skip_whitespace before rest)

unfoldable pub join_scope : Bytes → Bytes → Bytes
unfolding bytes_eq
join_scope name scoped_name =
    if bytes_eq name (codes "gentest") then scoped_name else name ++ (codes "::" ++ scoped_name)

-- The loop over the scopes, on fuel: the name, and the index behind it.
unfoldable pub scope_loop : ℕ → Bytes → Cursor → Option (Bytes × Cursor)
unfolding scoped_name_at join_scope
scope_loop zero name cursor = none
scope_loop (suc fuel) name cursor = elim (scoped_name_at cursor) [
  | none ↦ some (name, cursor)
  | some (scoped_name, next) ↦ scope_loop fuel (join_scope name scoped_name) next
]
