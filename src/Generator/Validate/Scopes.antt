-- ===== src/Generator/Validate/Scopes.antt =====
-- `validate_fixture_attributes` and `validate_namespace_attributes` of tools/src/validate.cpp, with
-- the messages that they report.
pub mod Accepted
pub mod Namespaces
pub mod Written
use gentest.Base.{
  ℕ, ◌≡◌, refl, Bool, true, false, not, Option, none, some, List, [], ◌∷◌, ◌++◌, Bytes, codes,
  bytes_eq, if◌then◌else◌, is_empty,
}
use gentest.Cases.{FixtureLifetime, member_ephemeral, member_suite, member_global}
use gentest.Generator.Attributes.{ParsedAttribute}
use gentest.Generator.Validate.{lowered, unknown_message}

pub record FixtureAttributeSummary : Type 0 where
  pub had_error : Bool
  pub lifetime : FixtureLifetime

pub record FixtureValidation : Type 0 where
  pub summary : FixtureAttributeSummary
  pub saw_fixture : Bool
  pub reports : List Bytes

unfoldable pub fail_fixture : FixtureValidation → Bytes → FixtureValidation
fail_fixture v message = record v {
  summary = record v.summary { had_error = true };
  reports = v.reports ++ message ∷ [];
}

unfoldable pub fixture_scope : FixtureValidation → Bytes → FixtureValidation
unfolding fail_fixture bytes_eq
fixture_scope v arg =
    if bytes_eq (lowered arg) (codes "suite")
    then record v { summary = record v.summary { lifetime = member_suite } }
    else if bytes_eq (lowered arg) (codes "global")
    then record v { summary = record v.summary { lifetime = member_global } }
    else fail_fixture v
        (codes "unknown fixture scope '" ++ arg ++ codes "'; expected 'suite' or 'global'")

unfoldable pub fixture_arguments : FixtureValidation → List Bytes → FixtureValidation
unfolding fixture_scope fail_fixture
fixture_arguments v (arg ∷ []) = fixture_scope v arg
fixture_arguments v _ =
    fail_fixture v (codes "'fixture' requires exactly one argument: 'suite' or 'global'")

unfoldable pub validate_fixture : FixtureValidation → ParsedAttribute → FixtureValidation
unfolding fixture_arguments fail_fixture bytes_eq unknown_message
validate_fixture v attr =
    if not (bytes_eq (lowered attr.name) (codes "fixture"))
    then fail_fixture v (unknown_message (codes "class attribute") attr.name attr.arguments)
    else if v.saw_fixture
    then fail_fixture v (codes "duplicate gentest attribute 'fixture' on fixture type")
    else fixture_arguments (record v { saw_fixture = true }) attr.arguments

unfoldable pub fixture_loop : FixtureValidation → List ParsedAttribute → FixtureValidation
unfolding validate_fixture
fixture_loop v [] = v
fixture_loop v (attr ∷ parsed) = fixture_loop (validate_fixture v attr) parsed

abbrev pub no_fixture_validation : FixtureValidation
no_fixture_validation = record {
  summary = record { had_error = false; lifetime = member_ephemeral };
  saw_fixture = false;
  reports = [];
}

unfoldable pub validate_fixture_attributes : List ParsedAttribute → FixtureValidation
unfolding fixture_loop
validate_fixture_attributes = fixture_loop no_fixture_validation

pub record SuiteAttributeSummary : Type 0 where
  pub had_error : Bool
  pub suite_name : Option Bytes

pub record SuiteValidation : Type 0 where
  pub summary : SuiteAttributeSummary
  pub saw_suite : Bool
  pub reports : List Bytes

unfoldable pub fail_suite : SuiteValidation → Bytes → SuiteValidation
fail_suite v message = record v {
  summary = record v.summary { had_error = true };
  reports = v.reports ++ message ∷ [];
}

unfoldable pub suite_arguments : SuiteValidation → List Bytes → SuiteValidation
unfolding fail_suite
suite_arguments v (name ∷ []) =
    if is_empty name
    then fail_suite v (codes "'suite' argument must not be empty")
    else record v { saw_suite = true; summary = record v.summary { suite_name = some name } }
suite_arguments v _ = fail_suite v (codes "'suite' requires exactly one string argument")

unfoldable pub validate_suite : SuiteValidation → ParsedAttribute → SuiteValidation
unfolding suite_arguments fail_suite bytes_eq unknown_message
validate_suite v attr =
    if not (bytes_eq (lowered attr.name) (codes "suite"))
    then fail_suite v (unknown_message (codes "namespace attribute") attr.name attr.arguments)
    else if v.saw_suite
    then fail_suite v (codes "duplicate gentest namespace attribute 'suite'")
    else suite_arguments v attr.arguments

unfoldable pub suite_loop : SuiteValidation → List ParsedAttribute → SuiteValidation
unfolding validate_suite
suite_loop v [] = v
suite_loop v (attr ∷ parsed) = suite_loop (validate_suite v attr) parsed

abbrev pub no_suite_validation : SuiteValidation
no_suite_validation = record {
  summary = record { had_error = false; suite_name = none };
  saw_suite = false;
  reports = [];
}

unfoldable pub validate_namespace_attributes : List ParsedAttribute → SuiteValidation
unfolding suite_loop
validate_namespace_attributes = suite_loop no_suite_validation
