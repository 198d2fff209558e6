-- ===== src/Generator/Validate/Scopes/Accepted.antt =====
-- The lists of attributes that fixture types accept.
use gentest.Base.{
  ◌≡◌, refl, inl, inr, true, false, not, ◌||◌, Option, none, some, List, [], ◌∷◌, Bytes, codes,
  bytes_eq, Bool-cases, if-cases, arith, if◌then◌else◌,
}
use gentest.Cases.{FixtureLifetime, member_ephemeral, member_suite, member_global}
use gentest.Generator.Attributes.{ParsedAttribute}
use gentest.Generator.Validate.{lowered}
use gentest.Generator.Validate.Scopes.{
  FixtureValidation, fail_fixture, fixture_scope, fixture_arguments, validate_fixture, fixture_loop,
  no_fixture_validation, validate_fixture_attributes,
}

-- The lifetime that the arguments of `fixture` name.
abbrev pub scope_of : List Bytes → Option FixtureLifetime
scope_of (arg ∷ []) =
    if bytes_eq (lowered arg) (codes "suite")
    then some member_suite
    else if bytes_eq (lowered arg) (codes "global")
    then some member_global
    else none
scope_of _ = none

-- The lifetime of a fixture type with the attributes: none at all, or `fixture` with a scope.
abbrev pub fixture_lifetime : List ParsedAttribute → Option FixtureLifetime
fixture_lifetime [] = some member_ephemeral
fixture_lifetime (attr ∷ []) =
    if bytes_eq (lowered attr.name) (codes "fixture") then scope_of attr.arguments else none
fixture_lifetime (a ∷ b ∷ parsed) = none

-- The lifetime in a summary without errors.
abbrev pub accepted_lifetime : FixtureValidation → Option FixtureLifetime
accepted_lifetime v = if v.summary.had_error then none else some v.summary.lifetime

abbrev Failed : FixtureValidation → Type 0
Failed v = v.summary.had_error ≡ true

fixture_arguments-Failed :
    (v : FixtureValidation) (arguments : List Bytes)
    → Failed v
    → Failed (fixture_arguments v arguments)
unfolding fixture_arguments fixture_scope fail_fixture
fixture_arguments-Failed v [] h = refl
fixture_arguments-Failed v (arg ∷ []) h =
    if-cases Failed (bytes_eq (lowered arg) (codes "suite")) _ _ (λ e. h)
      λ e. if-cases Failed (bytes_eq (lowered arg) (codes "global")) _ _ (λ k. h) (λ k. refl)
fixture_arguments-Failed v (a ∷ b ∷ arguments) h = refl

validate_fixture-Failed :
    (v : FixtureValidation) (attr : ParsedAttribute) → Failed v → Failed (validate_fixture v attr)
unfolding validate_fixture fail_fixture
validate_fixture-Failed v attr h =
    if-cases Failed (not (bytes_eq (lowered attr.name) (codes "fixture"))) _ _ (λ e. refl)
      λ e.
        if-cases Failed v.saw_fixture _ _ (λ k. refl)
          λ k. fixture_arguments-Failed (record v { saw_fixture = true }) attr.arguments h

fixture_loop-Failed :
    (parsed : List ParsedAttribute) (v : FixtureValidation)
    → Failed v
    → Failed (fixture_loop v parsed)
unfolding fixture_loop
fixture_loop-Failed [] v h = h
fixture_loop-Failed (attr ∷ parsed) v h =
    fixture_loop-Failed parsed (validate_fixture v attr) (validate_fixture-Failed v attr h)

-- A second attribute is an error, whatever it is.
abbrev Taken : FixtureValidation → Type 0
Taken v = (v.summary.had_error || v.saw_fixture) ≡ true

fixture_arguments-Taken :
    (v : FixtureValidation) (arguments : List Bytes)
    → v.saw_fixture ≡ true
    → Taken (fixture_arguments v arguments)
unfolding fixture_arguments fixture_scope fail_fixture
fixture_arguments-Taken v [] h = refl
fixture_arguments-Taken v (arg ∷ []) h =
    if-cases Taken (bytes_eq (lowered arg) (codes "suite")) _ _ (λ e. ground (arith, h))
      λ e.
        if-cases Taken (bytes_eq (lowered arg) (codes "global")) _ _ (λ k. ground (arith, h))
          (λ k. refl)
fixture_arguments-Taken v (a ∷ b ∷ arguments) h = refl

validate_fixture-Taken :
    (v : FixtureValidation) (attr : ParsedAttribute) → Taken (validate_fixture v attr)
unfolding validate_fixture fail_fixture
validate_fixture-Taken v attr =
    if-cases Taken (not (bytes_eq (lowered attr.name) (codes "fixture"))) _ _ (λ e. refl)
      λ e.
        if-cases Taken v.saw_fixture _ _ (λ k. refl)
          λ k. fixture_arguments-Taken (record v { saw_fixture = true }) attr.arguments refl

validate_fixture_again :
    (v : FixtureValidation) (attr : ParsedAttribute) → Taken v → Failed (validate_fixture v attr)
unfolding validate_fixture fail_fixture
validate_fixture_again v attr h =
    if-cases Failed (not (bytes_eq (lowered attr.name) (codes "fixture"))) _ _ (λ e. refl)
      λ e.
        if-cases Failed v.saw_fixture _ _ (λ k. refl)
          λ k.
            fixture_arguments-Failed (record v { saw_fixture = true }) attr.arguments
              (ground (arith, h, k))

fixture_arguments_accepted :
    (v : FixtureValidation) (arguments : List Bytes)
    → v.summary.had_error ≡ false
    → accepted_lifetime (fixture_arguments v arguments) ≡ scope_of arguments
unfolding fixture_arguments fixture_scope fail_fixture
fixture_arguments_accepted v [] h = refl
fixture_arguments_accepted v (arg ∷ []) h =
    elim (Bool-cases (bytes_eq (lowered arg) (codes "suite"))) [
      | inl e ↦ rw (e, h) refl
      | inr e ↦ elim (Bool-cases (bytes_eq (lowered arg) (codes "global"))) [
        | inl k ↦ rw (e, k, h) refl
        | inr k ↦ rw (e, k) refl
      ]
    ]
fixture_arguments_accepted v (a ∷ b ∷ arguments) h = refl

accepted_none : (v : FixtureValidation) → Failed v → accepted_lifetime v ≡ none
accepted_none v h = rw h refl

-- The validation of a fixture type's attributes reports no error exactly for the empty list and for
-- one `fixture` attribute with the argument `suite` or `global`, in any case of the letters, and the
-- lifetime is then the one written.
pub validate_fixture_attributes-fixture_lifetime :
    (parsed : List ParsedAttribute)
    → accepted_lifetime (validate_fixture_attributes parsed) ≡ fixture_lifetime parsed
unfolding validate_fixture_attributes fixture_loop validate_fixture fail_fixture
validate_fixture_attributes-fixture_lifetime [] = refl
validate_fixture_attributes-fixture_lifetime (attr ∷ []) =
    elim (Bool-cases (bytes_eq (lowered attr.name) (codes "fixture"))) [
      | inl e ↦ rw e (
          fixture_arguments_accepted (record no_fixture_validation { saw_fixture = true })
            attr.arguments refl)
      | inr e ↦ rw e refl
    ]
validate_fixture_attributes-fixture_lifetime (a ∷ b ∷ parsed) =
    let first : FixtureValidation = validate_fixture no_fixture_validation a in
    accepted_none (fixture_loop (validate_fixture first b) parsed) (
      fixture_loop-Failed parsed (validate_fixture first b)
        (validate_fixture_again first b (validate_fixture-Taken no_fixture_validation a)))
