-- ===== src/Generator/Attributes/Parse/Printed.antt =====
-- Lists of attributes as a test's author writes them.
use gentest.Base.{◌≡◌, true, false, List, [], ◌∷◌, ◌++◌, map, Bytes, codes, bytes_eq, All}
use gentest.Generator.Characters.{is_identifier_char, is_name_start}
use gentest.Generator.Arguments.Printed.{Argument, argument_value, print_arguments, IsWritten}
use gentest.Generator.Attributes.{ParsedAttribute}

-- No scope, the scope `gentest`, or another one.
pub data Scope : Type 0 where
  bare own : Scope
  foreign : Bytes → Scope

pub record Attribute : Type 0 where
  pub scope : Scope
  pub name : Bytes
  pub arguments : List Argument

abbrev pub print_scope : Scope → Bytes
print_scope bare = []
print_scope own = codes "gentest::"
print_scope (foreign scope) = scope ++ codes "::"

abbrev pub print_call : List Argument → Bytes
print_call [] = []
print_call (a ∷ arguments) = b'(' ∷ (print_arguments (a ∷ arguments) ++ b')' ∷ [])

abbrev pub print_attribute : Attribute → Bytes
print_attribute a = print_scope a.scope ++ (a.name ++ print_call a.arguments)

abbrev pub print_others : List Attribute → Bytes
print_others [] = []
print_others (a ∷ attributes) = b',' ∷ b' ' ∷ (print_attribute a ++ print_others attributes)

abbrev pub print_attributes : List Attribute → Bytes
print_attributes [] = []
print_attributes (a ∷ attributes) = print_attribute a ++ print_others attributes

-- The name with its scope, unless that is `gentest`.
abbrev pub full_name : Scope → Bytes → Bytes
full_name bare name = name
full_name own name = name
full_name (foreign scope) name = scope ++ (codes "::" ++ name)

abbrev pub parsed_attribute : Attribute → ParsedAttribute
parsed_attribute a = record {
  name = full_name a.scope a.name;
  arguments = map argument_value a.arguments;
}

-- A letter or an underscore, and then letters, digits, underscores and dashes.
abbrev pub IsName : Bytes → Type 0
IsName [] = ⊥
IsName (c ∷ name) = (is_name_start c ≡ true) × All (λ d. is_identifier_char d ≡ true) name

abbrev pub IsScope : Scope → Type 0
IsScope bare = Unit
IsScope own = Unit
IsScope (foreign scope) = IsName scope × (bytes_eq scope (codes "gentest") ≡ false)

abbrev pub IsWrittenAttribute : Attribute → Type 0
IsWrittenAttribute a = IsScope a.scope × IsName a.name × All IsWritten a.arguments
