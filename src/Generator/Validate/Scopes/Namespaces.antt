-- ===== src/Generator/Validate/Scopes/Namespaces.antt =====
-- The lists of attributes that namespaces accept.
use gentest.Base.{
  ◌≡◌, refl, inl, inr, true, not, ◌||◌, Option, none, some, List, [], ◌∷◌, Bytes, codes, bytes_eq,
  Bool-cases, if-cases, arith, if◌then◌else◌, is_empty,
}
use gentest.Generator.Attributes.{ParsedAttribute}
use gentest.Generator.Validate.{lowered}
use gentest.Generator.Validate.Scopes.{
  SuiteValidation, fail_suite, suite_arguments, validate_suite, suite_loop, no_suite_validation,
  validate_namespace_attributes,
}

abbrev pub suite_of : List Bytes → Option (Option Bytes)
suite_of (name ∷ []) = if is_empty name then none else some (some name)
suite_of _ = none

-- The suite of a namespace with the attributes: none at all, or `suite` with a name.
abbrev pub namespace_suite : List ParsedAttribute → Option (Option Bytes)
namespace_suite [] = some none
namespace_suite (attr ∷ []) =
    if bytes_eq (lowered attr.name) (codes "suite") then suite_of attr.arguments else none
namespace_suite (a ∷ b ∷ parsed) = none

-- The suite in a summary without errors.
abbrev pub accepted_suite : SuiteValidation → Option (Option Bytes)
accepted_suite v = if v.summary.had_error then none else some v.summary.suite_name

abbrev Failed : SuiteValidation → Type 0
Failed v = v.summary.had_error ≡ true

suite_arguments-Failed :
    (v : SuiteValidation) (arguments : List Bytes) → Failed v → Failed (suite_arguments v arguments)
unfolding suite_arguments fail_suite
suite_arguments-Failed v [] h = refl
suite_arguments-Failed v (name ∷ []) h = if-cases Failed (is_empty name) _ _ (λ e. refl) (λ e. h)
suite_arguments-Failed v (a ∷ b ∷ arguments) h = refl

validate_suite-Failed :
    (v : SuiteValidation) (attr : ParsedAttribute) → Failed v → Failed (validate_suite v attr)
unfolding validate_suite fail_suite
validate_suite-Failed v attr h =
    if-cases Failed (not (bytes_eq (lowered attr.name) (codes "suite"))) _ _ (λ e. refl)
      λ e.
        if-cases Failed v.saw_suite _ _ (λ k. refl) λ k. suite_arguments-Failed v attr.arguments h

suite_loop-Failed :
    (parsed : List ParsedAttribute) (v : SuiteValidation) → Failed v → Failed (suite_loop v parsed)
unfolding suite_loop
suite_loop-Failed [] v h = h
suite_loop-Failed (attr ∷ parsed) v h =
    suite_loop-Failed parsed (validate_suite v attr) (validate_suite-Failed v attr h)

-- A second attribute is an error, whatever it is.
abbrev Taken : SuiteValidation → Type 0
Taken v = (v.summary.had_error || v.saw_suite) ≡ true

suite_arguments-Taken :
    (v : SuiteValidation) (arguments : List Bytes) → Taken (suite_arguments v arguments)
unfolding suite_arguments fail_suite
suite_arguments-Taken v [] = refl
suite_arguments-Taken v (name ∷ []) =
    if-cases Taken (is_empty name) _ _ (λ e. refl) (λ e. ground arith)
suite_arguments-Taken v (a ∷ b ∷ arguments) = refl

validate_suite-Taken :
    (v : SuiteValidation) (attr : ParsedAttribute) → Taken (validate_suite v attr)
unfolding validate_suite fail_suite
validate_suite-Taken v attr =
    if-cases Taken (not (bytes_eq (lowered attr.name) (codes "suite"))) _ _ (λ e. refl)
      λ e. if-cases Taken v.saw_suite _ _ (λ k. refl) λ k. suite_arguments-Taken v attr.arguments

validate_suite_again :
    (v : SuiteValidation) (attr : ParsedAttribute) → Taken v → Failed (validate_suite v attr)
unfolding validate_suite fail_suite
validate_suite_again v attr h =
    if-cases Failed (not (bytes_eq (lowered attr.name) (codes "suite"))) _ _ (λ e. refl)
      λ e.
        if-cases Failed v.saw_suite _ _ (λ k. refl)
          λ k. suite_arguments-Failed v attr.arguments (ground (arith, h, k))

suite_arguments_accepted :
    (arguments : List Bytes)
    → accepted_suite (suite_arguments no_suite_validation arguments) ≡ suite_of arguments
unfolding suite_arguments fail_suite
suite_arguments_accepted [] = refl
suite_arguments_accepted (name ∷ []) = elim (Bool-cases (is_empty name)) [
  | inl e ↦ rw e refl
  | inr e ↦ rw e refl
]
suite_arguments_accepted (a ∷ b ∷ arguments) = refl

accepted_none : (v : SuiteValidation) → Failed v → accepted_suite v ≡ none
accepted_none v h = rw h refl

-- The validation of a namespace's attributes reports no error exactly for the empty list and for one
-- `suite` attribute with one argument that is not empty, and the suite is then the one written.
pub validate_namespace_attributes-namespace_suite :
    (parsed : List ParsedAttribute)
    → accepted_suite (validate_namespace_attributes parsed) ≡ namespace_suite parsed
unfolding validate_namespace_attributes suite_loop validate_suite fail_suite
validate_namespace_attributes-namespace_suite [] = refl
validate_namespace_attributes-namespace_suite (attr ∷ []) =
    elim (Bool-cases (bytes_eq (lowered attr.name) (codes "suite"))) [
      | inl e ↦ rw e (suite_arguments_accepted attr.arguments)
      | inr e ↦ rw e refl
    ]
validate_namespace_attributes-namespace_suite (a ∷ b ∷ parsed) =
    let first : SuiteValidation = validate_suite no_suite_validation a in
    accepted_none (suite_loop (validate_suite first b) parsed) (
      suite_loop-Failed parsed (validate_suite first b)
        (validate_suite_again first b (validate_suite-Taken no_suite_validation a)))
