-- ===== src/Generator/Attributes/Parse/Iterate.antt =====
-- One iteration of the loop of `parse_attribute_list` on a printed attribute.
use mathlib.Core.List.{append_assoc}
use gentest.Base.{
  ℕ, suc, ◌≡◌, refl, ap, subst, ◌∙◌, false, some, List, [], ◌∷◌, ◌++◌, map, Bytes, codes, bytes_eq,
  All,
}
use gentest.Generator.Unquote.{is_space}
use gentest.Generator.Characters.{is_alpha, is_alnum, is_identifier_char, is_name_start}
use gentest.Generator.Arguments.Printed.{Argument, argument_value, print_arguments, IsWritten}
use gentest.Generator.Arguments.Joined.{onto}
use gentest.Generator.Attributes.{ParsedAttribute, advance_while, arguments_at}
use gentest.Generator.Attributes.Scanned.{arguments_at-print_arguments}
use gentest.Generator.Attributes.Names.{join_scope}
use gentest.Generator.Attributes.Parse.{
  after_attribute, arguments_behind, Item, attribute, with_arguments, with_scopes, next_item,
}
use gentest.Generator.Attributes.Parse.Printed.{
  Scope, bare, own, foreign, Attribute, print_scope, print_call, print_others, full_name, IsName,
  IsScope,
}
use gentest.Generator.Attributes.Parse.Read.{Stops, next_item-name, next_item-scope}

Stops-print_others : (attributes : List Attribute) → Stops (print_others attributes)
unfolding is_identifier_char is_alnum is_alpha is_space
Stops-print_others [] = tt
Stops-print_others (a ∷ attributes) = (refl, refl, refl)

Stops-print_call :
    (arguments : List Argument) (t : Bytes) → Stops t → Stops (print_call arguments ++ t)
unfolding is_identifier_char is_alnum is_alpha is_space
Stops-print_call [] t s = s
Stops-print_call (a ∷ arguments) t s = (refl, refl, refl)

-- The text before the index, behind the arguments.
abbrev behind_call : List Argument → Bytes → Bytes
behind_call [] before = before
behind_call (a ∷ arguments) before = b')' ∷ onto (print_arguments (a ∷ arguments)) (b'(' ∷ before)

arguments_behind_none :
    (attributes : List Attribute) (before : Bytes)
    → arguments_behind (before, print_others attributes) ≡ ([], (before, print_others attributes))
unfolding arguments_behind arguments_at advance_while is_space
arguments_behind_none [] before = refl
arguments_behind_none (a ∷ attributes) before = refl

arguments_behind-print_call :
    (arguments : List Argument) (attributes : List Attribute) (before : Bytes)
    → All IsWritten arguments
    → arguments_behind (before, print_call arguments ++ print_others attributes)
      ≡ (map argument_value arguments, (behind_call arguments before, print_others attributes))
unfolding arguments_behind advance_while is_space
arguments_behind-print_call [] attributes before h = arguments_behind_none attributes before
arguments_behind-print_call (a ∷ arguments) attributes before h =
    ap (λ t. arguments_at (before, b'(' ∷ t))
      (append_assoc (print_arguments (a ∷ arguments)) (b')' ∷ []) (print_others attributes))
    ∙ arguments_at-print_arguments (a ∷ arguments) before (print_others attributes) h

-- The attribute that an iteration reads, with the index moved behind what separates it from the
-- attributes that follow.
abbrev pub Follows : ParsedAttribute → List Attribute → Item → Type 0
Follows parsed attributes item =
    (b : Bytes) × (item ≡ attribute parsed (after_attribute (b, print_others attributes)))

with_scopes-print_call :
    (name : Bytes) (arguments : List Argument) (attributes : List Attribute) (before : Bytes)
    → All IsWritten arguments
    → with_scopes (some (name, (before, print_call arguments ++ print_others attributes)))
      ≡ attribute
          (record { name = name; arguments = map argument_value arguments })
          (after_attribute (behind_call arguments before, print_others attributes))
unfolding with_scopes with_arguments
with_scopes-print_call name arguments attributes before h =
    ap (with_arguments name) (arguments_behind-print_call arguments attributes before h)

abbrev after_name : List Argument → List Attribute → Bytes
after_name arguments attributes = print_call arguments ++ print_others attributes

after_name-Stops :
    (arguments : List Argument) (attributes : List Attribute)
    → Stops (after_name arguments attributes)
after_name-Stops arguments attributes =
    Stops-print_call arguments (print_others attributes) (Stops-print_others attributes)

next_item_bare :
    (fuel : ℕ) (before : Bytes) (c : ℕ) (name : Bytes) (arguments : List Argument)
    (attributes : List Attribute)
    → IsName (c ∷ name)
    → All IsWritten arguments
    → Follows
        (record { name = c ∷ name; arguments = map argument_value arguments })
        attributes
        (next_item
          (suc (suc fuel))
          (before, c ∷ ((name ++ print_call arguments) ++ print_others attributes)))
next_item_bare fuel before c name arguments attributes n h = (
  _,
  ap (λ t. next_item (suc (suc fuel)) (before, c ∷ t))
        (append_assoc name (print_call arguments) (print_others attributes))
      ∙ next_item-name (suc fuel) before c name _ n (after_name-Stops arguments attributes)
      ∙ with_scopes-print_call (c ∷ name) arguments attributes _ h,
)

next_item_scoped :
    (fuel : ℕ) (before : Bytes) (d : ℕ) (scope : Bytes) (c : ℕ) (name : Bytes)
    (arguments : List Argument) (attributes : List Attribute)
    → IsName (d ∷ scope)
    → IsName (c ∷ name)
    → All IsWritten arguments
    → Follows
        (record {
          name = join_scope (d ∷ scope) (c ∷ name);
          arguments = map argument_value arguments;
        })
        attributes
        (next_item (suc (suc fuel)) (
          before,
          d ∷ ((scope ++ (b':' ∷ b':' ∷ [])) ++ (c ∷ (name ++ print_call arguments)))
              ++ print_others attributes,
        ))
next_item_scoped fuel before d scope c name arguments attributes k n h = (
  _,
  ap (λ t. next_item (suc (suc fuel)) (before, d ∷ t))
        (ap (λ t. t ++ print_others attributes)
            (append_assoc scope (b':' ∷ b':' ∷ []) (c ∷ (name ++ print_call arguments)))
          ∙ append_assoc scope (b':' ∷ b':' ∷ c ∷ (name ++ print_call arguments))
              (print_others attributes)
          ∙ ap (λ t. scope ++ b':' ∷ b':' ∷ c ∷ t)
              (append_assoc name (print_call arguments) (print_others attributes)))
      ∙ next_item-scope fuel before d scope c name _ k n (after_name-Stops arguments attributes)
      ∙ with_scopes-print_call (join_scope (d ∷ scope) (c ∷ name)) arguments attributes _ h,
)

gentest-IsName : IsName (codes "gentest")
unfolding is_name_start is_identifier_char is_alnum is_alpha
gentest-IsName = (refl, (refl, (refl, (refl, (refl, (refl, (refl, tt)))))))

join_scope-foreign :
    (scope name : Bytes)
    → bytes_eq scope (codes "gentest") ≡ false
    → join_scope scope name ≡ scope ++ (codes "::" ++ name)
unfolding join_scope
join_scope-foreign scope name h = rw h refl

-- An iteration reads a printed attribute.
pub next_item-print_attribute :
    (fuel : ℕ) (before : Bytes) (scope : Scope) (name : Bytes) (arguments : List Argument)
    (attributes : List Attribute)
    → IsScope scope
    → IsName name
    → All IsWritten arguments
    → Follows
        (record { name = full_name scope name; arguments = map argument_value arguments })
        attributes
        (next_item (suc (suc fuel)) (
          before,
          (print_scope scope ++ (name ++ print_call arguments)) ++ print_others attributes,
        ))
unfolding join_scope bytes_eq
next_item-print_attribute fuel before scope [] arguments attributes k n h = absurd n
next_item-print_attribute fuel before bare (c ∷ name) arguments attributes k n h =
    next_item_bare fuel before c name arguments attributes n h
next_item-print_attribute fuel before own (c ∷ name) arguments attributes k n h =
    next_item_scoped fuel before b'g' (codes "entest") c name arguments attributes gentest-IsName n
      h
next_item-print_attribute fuel before (foreign []) (c ∷ name) arguments attributes k n h =
    absurd (k.0)
next_item-print_attribute fuel before (foreign (d ∷ scope)) (c ∷ name) arguments attributes k n h =
    subst
      (λ full.
        Follows (record { name = full; arguments = map argument_value arguments }) attributes
          (next_item (suc (suc fuel)) (
            before,
            (print_scope (foreign (d ∷ scope)) ++ ((c ∷ name) ++ print_call arguments))
                ++ print_others attributes,
          )))
      (join_scope-foreign (d ∷ scope) (c ∷ name) k.1)
      (next_item_scoped fuel before d scope c name arguments attributes k.0 n h)
