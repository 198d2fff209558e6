-- ===== src/Generator/Attributes/Parse/Read.antt =====
-- The names of attributes that `parse_attribute_list` reads.
use gentest.Base.{
  ℕ, suc, ◌≡◌, refl, ap, ◌∙◌, true, false, none, some, [], ◌∷◌, ◌++◌, Bytes, ◌==◌, All, arith,
}
use gentest.Generator.Unquote.{is_space}
use gentest.Generator.Characters.{is_alpha, is_alnum, is_identifier_char, is_name_start, take_while}
use gentest.Generator.Arguments.Joined.{onto}
use gentest.Generator.Attributes.{advance_while, skip_whitespace}
use gentest.Generator.Attributes.Names.{
  identifier_at, scope_at, scoped_name_at, join_scope, scope_loop,
}
use gentest.Generator.Attributes.Parse.{with_scopes, with_name, item_at, next_item}
use gentest.Generator.Attributes.Parse.Printed.{IsName}

-- What may follow a name that no scope follows.
abbrev pub Stops : Bytes → Type 0
Stops [] = Unit
Stops (c ∷ t) = (is_identifier_char c ≡ false) × (is_space c ≡ false) × ((c == b':') ≡ false)

pub name_start_no_space : (c : ℕ) → is_name_start c ≡ true → is_space c ≡ false
unfolding is_name_start is_alpha is_space
name_start_no_space c h = ground (arith, h)

-- What may follow a name.
abbrev Bounded : Bytes → Type 0
Bounded [] = Unit
Bounded (c ∷ t) = is_identifier_char c ≡ false

Stops-Bounded : (t : Bytes) → Stops t → Bounded t
Stops-Bounded [] s = tt
Stops-Bounded (c ∷ t) s = s.0

take_while-name :
    (name t : Bytes)
    → All (λ d. is_identifier_char d ≡ true) name
    → Bounded t
    → take_while is_identifier_char (name ++ t) ≡ name
take_while-name [] [] h s = refl
take_while-name [] (c ∷ t) h s = rw s refl
take_while-name (d ∷ name) t h s = rw h.0 (ap (λ r. d ∷ r) (take_while-name name t h.1 s))

advance_while-name :
    (before name t : Bytes)
    → All (λ d. is_identifier_char d ≡ true) name
    → Bounded t
    → advance_while is_identifier_char before (name ++ t) ≡ (onto name before, t)
unfolding advance_while
advance_while-name before [] [] h s = refl
advance_while-name before [] (c ∷ t) h s = rw (advance_while, s) refl
advance_while-name before (d ∷ name) t h s =
    rw (advance_while, h.0) (advance_while-name (d ∷ before) name t h.1 s)

identifier_at-name :
    (before : Bytes) (c : ℕ) (name t : Bytes)
    → IsName (c ∷ name)
    → Bounded t
    → identifier_at (before, c ∷ (name ++ t)) ≡ some (c ∷ name, (onto name (c ∷ before), t))
unfolding identifier_at
identifier_at-name before c name t h s =
    rw (identifier_at, h.0)
      (rw (take_while-name name t h.1 s, advance_while-name (c ∷ before) name t h.1 s) refl)

skip_whitespace_none :
    (before : Bytes) (c : ℕ) (t : Bytes)
    → is_space c ≡ false
    → skip_whitespace before (c ∷ t) ≡ (before, c ∷ t)
unfolding advance_while
skip_whitespace_none before c t h = rw (advance_while, h) refl

scoped_name_at-none : (before t : Bytes) → Stops t → scoped_name_at (before, t) ≡ none
unfolding scoped_name_at scope_at advance_while
scoped_name_at-none before [] s = refl
scoped_name_at-none before (c ∷ []) s = ap scope_at (skip_whitespace_none before c [] s.1)
scoped_name_at-none before (c ∷ d ∷ t) s =
    ap scope_at (skip_whitespace_none before c (d ∷ t) s.1) ∙ rw (scope_at, s.2) refl

scoped_name_at-name :
    (before : Bytes) (c : ℕ) (name t : Bytes)
    → IsName (c ∷ name)
    → Bounded t
    → scoped_name_at (before, b':' ∷ b':' ∷ c ∷ (name ++ t))
      ≡ some (c ∷ name, (onto name (c ∷ b':' ∷ b':' ∷ before), t))
unfolding scoped_name_at scope_at advance_while is_space
scoped_name_at-name before c name t h s =
    ap identifier_at
      (skip_whitespace_none (b':' ∷ b':' ∷ before) c (name ++ t) (name_start_no_space c h.0))
    ∙ identifier_at-name (b':' ∷ b':' ∷ before) c name t h s

scope_loop-name :
    (fuel : ℕ) (name before t : Bytes)
    → Stops t
    → scope_loop (suc fuel) name (before, t) ≡ some (name, (before, t))
unfolding scope_loop
scope_loop-name fuel name before t s = rw (scope_loop, scoped_name_at-none before t s) refl

scope_loop-scope :
    (fuel : ℕ) (scope before : Bytes) (c : ℕ) (name t : Bytes)
    → IsName (c ∷ name)
    → Stops t
    → scope_loop (suc (suc fuel)) scope (before, b':' ∷ b':' ∷ c ∷ (name ++ t))
      ≡ some (join_scope scope (c ∷ name), (onto name (c ∷ b':' ∷ b':' ∷ before), t))
unfolding scope_loop
scope_loop-scope fuel scope before c name t h s =
    rw (scope_loop, scoped_name_at-name before c name t h (Stops-Bounded t s))
      (scope_loop-name fuel (join_scope scope (c ∷ name)) _ t s)

-- An iteration at a name, and at one with a scope.
pub next_item-name :
    (fuel : ℕ) (before : Bytes) (c : ℕ) (name t : Bytes)
    → IsName (c ∷ name)
    → Stops t
    → next_item (suc fuel) (before, c ∷ (name ++ t))
      ≡ with_scopes (some (c ∷ name, (onto name (c ∷ before), t)))
unfolding next_item item_at with_name
next_item-name fuel before c name t h s =
    ap (item_at (suc fuel)) (skip_whitespace_none before c (name ++ t) (name_start_no_space c h.0))
    ∙ ap (with_name (suc fuel) (c ∷ before, name ++ t))
        (identifier_at-name before c name t h (Stops-Bounded t s))
    ∙ ap with_scopes (scope_loop-name fuel (c ∷ name) (onto name (c ∷ before)) t s)

pub next_item-scope :
    (fuel : ℕ) (before : Bytes) (d : ℕ) (scope : Bytes) (c : ℕ) (name t : Bytes)
    → IsName (d ∷ scope)
    → IsName (c ∷ name)
    → Stops t
    → next_item (suc (suc fuel)) (before, d ∷ (scope ++ b':' ∷ b':' ∷ c ∷ (name ++ t)))
      ≡ with_scopes (
          some (
            join_scope (d ∷ scope) (c ∷ name),
            (onto name (c ∷ b':' ∷ b':' ∷ onto scope (d ∷ before)), t),
          ))
unfolding next_item item_at with_name is_identifier_char is_alnum is_alpha
next_item-scope fuel before d scope c name t k h s =
    let more : Bytes = b':' ∷ b':' ∷ c ∷ (name ++ t) in
    ap (item_at (suc (suc fuel)))
      (skip_whitespace_none before d (scope ++ more) (name_start_no_space d k.0))
    ∙ ap (with_name (suc (suc fuel)) (d ∷ before, scope ++ more))
        (identifier_at-name before d scope more k refl)
    ∙ ap with_scopes (scope_loop-scope fuel (d ∷ scope) (onto scope (d ∷ before)) c name t h s)
