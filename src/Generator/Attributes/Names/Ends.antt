-- ===== src/Generator/Attributes/Names/Ends.antt =====
-- The loop over the scopes of a name ends.
use gentest.Base.{
  ◌&&◌, ℕ, zero, suc, ◌≤◌, ◌<◌, ◌≡◌, inl, inr, Bool, true, Option, none, some, [], ◌∷◌, Bytes, ◌==◌,
  Bool-cases, arith, length, codes, bytes_eq,
}
use gentest.Generator.Unquote.{is_space}
use gentest.Generator.Characters.{is_identifier_char, is_name_start}
use gentest.Generator.Attributes.{Cursor, advance_while, skip_whitespace}
use gentest.Generator.Attributes.Names.{
  identifier_at, scope_at, scoped_name_at, join_scope, scope_loop,
}

pub advance_while_lem :
    (p : ℕ → Bool) (before rest : Bytes) → length (advance_while p before rest).1 ≤ length rest
unfolding advance_while
advance_while_lem p before [] = omega arith
advance_while_lem p before (c ∷ rest) = ground (arith, advance_while_lem p (c ∷ before) rest)

-- The first character may begin a name.
abbrev pub IsNamed : Bytes → Type 0
IsNamed [] = ⊥
IsNamed (c ∷ name) = is_name_start c ≡ true

-- A name, if there is one, is named and read from a text of some length.
abbrev pub Shortens : ℕ → Option (Bytes × Cursor) → Type 0
Shortens size none = Unit
Shortens size (some (name, cursor)) = IsNamed name × length cursor.1 < size

pub identifier_at-Shortens : (cursor : Cursor) → Shortens (length cursor.1) (identifier_at cursor)
unfolding identifier_at
identifier_at-Shortens (before, []) = tt
identifier_at-Shortens (before, c ∷ rest) = elim (Bool-cases (is_name_start c)) [
  | inl e ↦ rw e (e, omega (arith, advance_while_lem is_identifier_char (c ∷ before) rest))
  | inr e ↦ rw e tt
]

Shortens-≤ :
    (m n : ℕ) (found : Option (Bytes × Cursor)) → m ≤ n → Shortens m found → Shortens n found
Shortens-≤ m n none h s = tt
Shortens-≤ m n (some (name, cursor)) h s = (s.0, omega arith)

scope_at-Shortens : (cursor : Cursor) → Shortens (length cursor.1) (scope_at cursor)
unfolding scope_at
scope_at-Shortens (before, []) = tt
scope_at-Shortens (before, c ∷ []) = tt
scope_at-Shortens (before, c ∷ d ∷ rest) = elim (Bool-cases (c == b':' && d == b':')) [
  | inl e ↦ rw e (
      Shortens-≤ _ _ (identifier_at (skip_whitespace (d ∷ c ∷ before) rest))
        (omega (arith, advance_while_lem is_space (d ∷ c ∷ before) rest))
        (identifier_at-Shortens (skip_whitespace (d ∷ c ∷ before) rest)))
  | inr e ↦ rw e tt
]

scoped_name_at-Shortens : (cursor : Cursor) → Shortens (length cursor.1) (scoped_name_at cursor)
unfolding scoped_name_at
scoped_name_at-Shortens (before, rest) =
    Shortens-≤ _ _ (scope_at (skip_whitespace before rest)) (advance_while_lem _ before rest)
      (scope_at-Shortens (skip_whitespace before rest))

join_scope-IsNamed :
    (name scoped_name : Bytes)
    → IsNamed name
    → IsNamed scoped_name
    → IsNamed (join_scope name scoped_name)
unfolding join_scope
join_scope-IsNamed (c ∷ name) scoped_name h k =
    elim (Bool-cases (bytes_eq (c ∷ name) (codes "gentest"))) [ inl e ↦ rw e k | inr e ↦ rw e h ]
join_scope-IsNamed [] scoped_name h k = absurd h

-- The scopes end within the fuel.
abbrev pub Names : ℕ → Option (Bytes × Cursor) → Type 0
Names size none = ⊥
Names size (some (name, cursor)) = IsNamed name × length cursor.1 ≤ size

pub scope_loop-Names :
    (fuel : ℕ) (name : Bytes) (cursor : Cursor) (size : ℕ)
    → IsNamed name
    → length cursor.1 < fuel
    → length cursor.1 ≤ size
    → Names size (scope_loop fuel name cursor)
unfolding scope_loop
scope_loop-Names zero name cursor size h l k = absurd (omega arith)
scope_loop-Names (suc fuel) name cursor size h l k =
    let again : (scoped_name : Bytes) (next : Cursor)
        → Shortens (length cursor.1) (some (scoped_name, next))
        → Names size (scope_loop fuel (join_scope name scoped_name) next) =
      λ scoped_name next s.
        scope_loop-Names fuel (join_scope name scoped_name) next size
          (join_scope-IsNamed name scoped_name h s.0) (omega (arith, s.1)) (omega (arith, s.1)) in
    step (scoped_name_at cursor) (scoped_name_at-Shortens cursor) again
  where
    step :
        (found : Option (Bytes × Cursor))
        → Shortens (length cursor.1) found
        → ((scoped_name : Bytes) (next : Cursor)
            → Shortens (length cursor.1) (some (scoped_name, next))
            → Names size (scope_loop fuel (join_scope name scoped_name) next))
        → Names size (elim found [
          | none ↦ some (name, cursor)
          | some (scoped_name, next) ↦ scope_loop fuel (join_scope name scoped_name) next
        ])
    step none s again = (h, k)
    step (some (scoped_name, next)) s again = again scoped_name next s
