-- ===== src/Generator/Validate/Sound/Whole.antt =====
-- `validate_attributes` as a whole.
use gentest.Base.{◌≡◌, refl, true, false, not, ◌||◌, List, [], ◌∷◌, Bytes, ◌==◌, arith}
use gentest.Generator.Attributes.{ParsedAttribute}
use gentest.Generator.Validate.{Validation, fail, is_in, lowered}
use gentest.Generator.Validate.Attributes.{
  AttributeKind, test, bench, baseline, jitter, item_count, req, skip, template, parameters, range,
  linspace, geom, logspace, pack, fixtures, other, kind_of, other_branch, branch, validate_one,
  validate_loop, no_validation, is_unmeasured, check_baseline, check_item_count, set_is_case,
  validate_attributes,
}
use gentest.Generator.Validate.Sound.{IsKept, IsSound, fail-IsKept, fail_or, OnePlatform-Seen}
use gentest.Generator.Validate.Sound.Cases.{
  test_branch-IsKept, bench_branch-IsKept, baseline_branch-IsKept, jitter_branch-IsKept,
  count_branch-IsKept, req_branch-IsKept, skip_branch-IsKept,
}
use gentest.Generator.Validate.Sound.Flags.{flag_branch-IsKept, value_branch-IsKept}
use gentest.Generator.Validate.Sound.Matrix.{
  template_branch-IsKept, parameters_branch-IsKept, range_branch-IsKept, linspace_branch-IsKept,
  geom_branch-IsKept, logspace_branch-IsKept, pack_branch-IsKept,
}

other_branch-IsKept :
    (v : Validation) (name written : Bytes) (arguments : List Bytes)
    → name ≡ lowered written
    → IsKept v
    → IsKept (other_branch v name written arguments)
unfolding other_branch
other_branch-IsKept v name written [] q h = flag_branch-IsKept v name written q h
other_branch-IsKept v name written (a ∷ arguments) q h =
    value_branch-IsKept v name written (a ∷ arguments) q h

branch-IsKept :
    (k : AttributeKind) (v : Validation) (name written : Bytes) (arguments : List Bytes)
    → name ≡ lowered written
    → IsKept v
    → IsKept (branch k v name written arguments)
unfolding branch
branch-IsKept test v name written arguments q h = test_branch-IsKept v arguments h
branch-IsKept bench v name written arguments q h = bench_branch-IsKept v arguments h
branch-IsKept baseline v name written arguments q h = baseline_branch-IsKept v arguments h
branch-IsKept jitter v name written arguments q h = jitter_branch-IsKept v arguments h
branch-IsKept item_count v name written arguments q h = count_branch-IsKept v name arguments h
branch-IsKept req v name written arguments q h = req_branch-IsKept v arguments h
branch-IsKept skip v name written arguments q h = skip_branch-IsKept v arguments h
branch-IsKept template v name written arguments q h = template_branch-IsKept v arguments h
branch-IsKept parameters v name written arguments q h = parameters_branch-IsKept v arguments h
branch-IsKept range v name written arguments q h = range_branch-IsKept v arguments h
branch-IsKept linspace v name written arguments q h = linspace_branch-IsKept v arguments h
branch-IsKept geom v name written arguments q h = geom_branch-IsKept v arguments h
branch-IsKept logspace v name written arguments q h = logspace_branch-IsKept v arguments h
branch-IsKept pack v name written arguments q h = pack_branch-IsKept v arguments h
branch-IsKept fixtures v name written arguments q h = fail-IsKept v _ h
branch-IsKept other v name written arguments q h = other_branch-IsKept v name written arguments q h

validate_loop-IsKept :
    (parsed : List ParsedAttribute) (v : Validation) → IsKept v → IsKept (validate_loop v parsed)
unfolding validate_loop validate_one
validate_loop-IsKept [] v h = h
validate_loop-IsKept (attr ∷ parsed) v h = validate_loop-IsKept parsed (validate_one v attr) (
    branch-IsKept (kind_of (lowered attr.name)) v (lowered attr.name) attr.name attr.arguments refl
      h)

no_validation-IsKept : IsKept no_validation
unfolding is_in
no_validation-IsKept =
    (refl, tt, tt, (omega arith, omega arith, refl), tt, tt, (refl, ((λ h. h), (λ h. h))), tt, tt)

validate_attributes-IsKept : (parsed : List ParsedAttribute) → IsKept (validate_attributes parsed)
unfolding validate_attributes set_is_case check_item_count check_baseline
validate_attributes-IsKept parsed =
    let looped : IsKept (validate_loop no_validation parsed) =
      validate_loop-IsKept parsed no_validation no_validation-IsKept in
    let based : IsKept (check_baseline (validate_loop no_validation parsed)) =
      fail_or _ (validate_loop no_validation parsed) (validate_loop no_validation parsed) _ looped
        λ e. looped in
    fail_or _ (check_baseline (validate_loop no_validation parsed))
      (check_baseline (validate_loop no_validation parsed)) _ based λ e. based

-- Whatever the attributes are, their validation ends with a sound summary: an error is set exactly
-- when something was reported; a name is not empty, and a measured case has one; the item count fits
-- in 64 bits and is 1 unless it was given; no tag and no requirement stands twice; the tags are not
-- for both platforms, in whatever case of the letters; templates have candidates, and packs have rows
-- that fit.
pub validate_attributes-IsSound :
    (parsed : List ParsedAttribute) → IsSound (validate_attributes parsed)
validate_attributes-IsSound parsed =
    let v : Validation = validate_attributes parsed in
    let h = validate_attributes-IsKept parsed in
    (
      h.0,
      h.1,
      h.2,
      h.3,
      h.4,
      h.5,
      OnePlatform-Seen v.summary.tags v.seen_flags h.6.0 h.6.1,
      h.7,
      h.8,
    )

check_baseline_measured :
    (v : Validation)
    → (check_baseline v).summary.had_error ≡ false
    → (check_baseline v).summary.is_baseline ≡ true
    → is_unmeasured (check_baseline v).summary ≡ false
unfolding check_baseline fail is_unmeasured
check_baseline_measured v h k = ground arith

check_item_count_measured :
    (v : Validation)
    → (v.summary.is_baseline ≡ true → v.summary.had_error ≡ false → is_unmeasured v.summary ≡ false)
    → (v.saw_items_per_call || v.summary.items_per_call == 1) ≡ true
    → (check_item_count v).summary.had_error ≡ false
    → ((check_item_count v).summary.is_baseline
        || not ((check_item_count v).summary.items_per_call == 1))
      ≡ true
    → is_unmeasured (check_item_count v).summary ≡ false
unfolding check_item_count fail is_unmeasured
check_item_count_measured v m s h k = ground arith

-- Where the validation reports no error, an attribute list that marks a baseline, or gives an item
-- count other than 1, also asks for a benchmark or a jitter measurement.
pub validate_attributes_measured :
    (parsed : List ParsedAttribute)
    → (validate_attributes parsed).summary.had_error ≡ false
    → ((validate_attributes parsed).summary.is_baseline
        || not ((validate_attributes parsed).summary.items_per_call == 1))
      ≡ true
    → is_unmeasured (validate_attributes parsed).summary ≡ false
unfolding validate_attributes set_is_case is_unmeasured
validate_attributes_measured parsed h k =
    let v : Validation = validate_loop no_validation parsed in
    let based : IsKept (check_baseline v) =
      fail_or _ v v _ (validate_loop-IsKept parsed no_validation no_validation-IsKept)
        λ e. validate_loop-IsKept parsed no_validation no_validation-IsKept in
    check_item_count_measured (check_baseline v) (λ b e. check_baseline_measured v e b) based.3.2 h
      k
