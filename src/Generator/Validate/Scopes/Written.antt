-- ===== src/Generator/Validate/Scopes/Written.antt =====
-- From the text of a namespace's attributes to its suite.
use gentest.Base.{
  ◌≡◌, refl, ap, ◌∙◌, Option, none, some, List, [], ◌∷◌, Bytes, codes, bytes_eq, if◌then◌else◌,
  is_empty,
}
use gentest.Selector.Tags.{lower}
use gentest.Generator.Characters.{is_alpha, is_alnum, is_identifier_char, is_name_start}
use gentest.Generator.Attributes.{ParsedAttribute}
use gentest.Generator.Attributes.Parse.{parse_attribute_list}
use gentest.Generator.Attributes.Parse.Printed.{
  Attribute, own, print_attributes, parsed_attribute, IsName,
}
use gentest.Generator.Attributes.Parse.RoundTrip.{parse_attribute_list-print_attributes}
use gentest.Generator.Arguments.Printed.{text}
use gentest.Generator.Validate.Scopes.{validate_namespace_attributes}
use gentest.Generator.Validate.Scopes.Namespaces.{
  accepted_suite, validate_namespace_attributes-namespace_suite,
}

-- `gentest::suite("...")`, with the name quoted.
abbrev pub written_suite : Bytes → List Attribute
written_suite name = (record { scope = own; name = codes "suite"; arguments = text name ∷ [] }) ∷ []

-- The suite of a namespace, from what the parser returned.
abbrev pub suite_of_parsed : Option (List ParsedAttribute) → Option (Option Bytes)
suite_of_parsed none = none
suite_of_parsed (some parsed) = accepted_suite (validate_namespace_attributes parsed)

suite-IsName : IsName (codes "suite")
unfolding is_name_start is_identifier_char is_alnum is_alpha
suite-IsName = (refl, (refl, (refl, (refl, (refl, tt)))))

-- A namespace attribute `gentest::suite` with a name in quotes, whatever that contains, is parsed and
-- validated to a suite of that name; the empty name is refused.
pub written_suite_accepted :
    (name : Bytes)
    → suite_of_parsed (parse_attribute_list (print_attributes (written_suite name)))
      ≡ (if is_empty name then none else some (some name))
unfolding bytes_eq lower
written_suite_accepted name =
    ap suite_of_parsed (
      parse_attribute_list-print_attributes (written_suite name) ((tt, suite-IsName, (tt, tt)), tt))
    ∙ validate_namespace_attributes-namespace_suite (
        parsed_attribute
          ((record { scope = own; name = codes "suite"; arguments = text name ∷ [] }))
        ∷ [])
