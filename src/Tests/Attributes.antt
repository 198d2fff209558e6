-- ===== src/Tests/Attributes.antt =====
-- Attribute lists parsed and validated at small inputs.
use gentest.Base.{
  All, ◌≡◌, refl, true, false, ◌||◌, not, some, List, [], ◌∷◌, map, codes, ◌==◌, bytes_eq,
}
use gentest.Selector.Tags.{lower}
use gentest.Generator.Unquote.{is_space}
use gentest.Generator.Characters.{is_alpha, is_alnum, is_identifier_char, is_name_start}
use gentest.Generator.Literal.{char_kind}
use gentest.Generator.Arguments.{split_arguments}
use gentest.Generator.Arguments.Printed.{text, word}
use gentest.Generator.Attributes.{ParsedAttribute}
use gentest.Generator.Attributes.Parse.{parse_attribute_list}
use gentest.Generator.Attributes.Parse.Ends.{Parsed, parse_attribute_list-Parsed}
use gentest.Generator.Attributes.Parse.Printed.{
  Attribute, bare, own, foreign, print_attributes, parsed_attribute, IsWrittenAttribute,
}
use gentest.Generator.Attributes.Parse.RoundTrip.{parse_attribute_list-print_attributes}
use gentest.Generator.Validate.Attributes.{is_unmeasured, validate_attributes}
use gentest.Generator.Validate.Sound.{IsSound}
use gentest.Generator.Validate.Sound.Whole.{
  validate_attributes-IsSound, validate_attributes_measured,
}
use gentest.Generator.Validate.Scopes.{validate_fixture_attributes}
use gentest.Generator.Validate.Scopes.Accepted.{
  accepted_lifetime, fixture_lifetime, validate_fixture_attributes-fixture_lifetime,
}
use gentest.Generator.Validate.Scopes.Written.{
  suite_of_parsed, written_suite, written_suite_accepted,
}

-- gentest::test("a, (b"), fast, o::mark(1)
abbrev written : List Attribute
written =
    (record { scope = own; name = codes "test"; arguments = text (codes "a, (b") ∷ [] })
    ∷ (record { scope = bare; name = codes "fast"; arguments = [] })
    ∷ (record {
      scope = foreign (codes "o");
      name = codes "mark";
      arguments = word (codes "1") ∷ [];
    })
    ∷ []

written-IsWrittenAttribute : All IsWrittenAttribute written
unfolding is_name_start is_identifier_char is_alnum is_alpha bytes_eq char_kind is_space
written-IsWrittenAttribute = (
  (tt, (refl, (refl, (refl, (refl, tt)))), (tt, tt)),
  (
    (tt, (refl, (refl, (refl, (refl, tt)))), tt),
    (
      (
        ((refl, tt), refl),
        (refl, (refl, (refl, (refl, tt)))),
        ((refl, ((refl, refl, refl), tt)), tt),
      ),
      tt,
    ),
  ),
)

parse_attribute_list-print_attributes_example :
    parse_attribute_list (print_attributes written) ≡ some (map parsed_attribute written)
parse_attribute_list-print_attributes_example =
    parse_attribute_list-print_attributes written written-IsWrittenAttribute

parse_attribute_list-Parsed_example : Parsed (parse_attribute_list (codes "a::(\"], b"))
parse_attribute_list-Parsed_example = parse_attribute_list-Parsed (codes "a::(\"], b")

-- A raw string literal with a quote in it is split at the comma behind the quote.
raw_string_split : split_arguments (codes "R\"(a\"b, c)\"") ≡ codes "R\"(a\"b" ∷ codes "c)\"" ∷ []
unfolding split_arguments
raw_string_split = refl

abbrev measured : List ParsedAttribute
measured =
    (record { name = codes "bench"; arguments = codes "b" ∷ [] })
    ∷ (record { name = codes "Items_Per_Call"; arguments = codes "64" ∷ [] })
    ∷ []

validate_attributes-IsSound_example : IsSound (validate_attributes measured)
validate_attributes-IsSound_example = validate_attributes-IsSound measured

measured_without_error : (validate_attributes measured).summary.had_error ≡ false
unfolding validate_attributes lower
measured_without_error = refl

measured_count : (validate_attributes measured).summary.items_per_call ≡ 64
unfolding validate_attributes lower
measured_count = refl

measured_with_count :
    ((validate_attributes measured).summary.is_baseline
      || not ((validate_attributes measured).summary.items_per_call == 1))
    ≡ true
unfolding validate_attributes lower
measured_with_count = refl

validate_attributes_measured_example : is_unmeasured (validate_attributes measured).summary ≡ false
validate_attributes_measured_example =
    validate_attributes_measured measured measured_without_error measured_with_count

abbrev fixture_list : List ParsedAttribute
fixture_list = (record { name = codes "fixture"; arguments = codes "Suite" ∷ [] }) ∷ []

validate_fixture_attributes-fixture_lifetime_example :
    accepted_lifetime (validate_fixture_attributes fixture_list) ≡ fixture_lifetime fixture_list
validate_fixture_attributes-fixture_lifetime_example =
    validate_fixture_attributes-fixture_lifetime fixture_list

written_suite_accepted_example :
    suite_of_parsed (parse_attribute_list (print_attributes (written_suite (codes "a/b"))))
    ≡ some (some (codes "a/b"))
written_suite_accepted_example = written_suite_accepted (codes "a/b")

-- A case for both platforms gets the tag of the first only, and an error.
both_platforms :
    let s =
      (validate_attributes (
        record { name = codes "Linux"; arguments = [] }
        ∷ record { name = codes "windows"; arguments = [] }
        ∷ [])).summary in
    (s.tags ≡ codes "Linux" ∷ []) × (s.had_error ≡ true)
unfolding validate_attributes lower
both_platforms = (refl, refl)
