-- ===== src/Generator/Validate/Attributes.antt =====
-- `validate_attributes` of tools/src/validate.cpp.
use gentest.Base.{
  Bool, false, not, ◌&&◌, ◌||◌, none, List, [], ◌∷◌, Bytes, codes, bytes_eq, if◌then◌else◌,
}
use gentest.Generator.Attributes.{ParsedAttribute}
use gentest.Generator.Validate.{AttributeSummary, Validation, fail, lowered}
use gentest.Generator.Validate.Branches.{
  test_branch, bench_branch, baseline_branch, jitter_branch, count_branch, req_branch, skip_branch,
  flag_branch, value_branch,
}
use gentest.Generator.Validate.Parameters.{
  template_branch, parameters_branch, range_branch, linspace_branch, geom_branch, logspace_branch,
  pack_branch,
}

pub data AttributeKind : Type 0 where
  test bench baseline jitter item_count req skip template : AttributeKind
  parameters range linspace geom logspace pack fixtures other : AttributeKind

unfoldable pub is_one_of : Bytes → List Bytes → Bool
unfolding bytes_eq
is_one_of name [] = false
is_one_of name (x ∷ names) = bytes_eq name x || is_one_of name names

-- The chain of tests on the name.
unfoldable pub kind_of : Bytes → AttributeKind
unfolding is_one_of
kind_of name =
    if is_one_of name (codes "test" ∷ [])
    then test
    else if is_one_of name (codes "bench" ∷ codes "benchmark" ∷ [])
    then bench
    else if is_one_of name (codes "baseline" ∷ [])
    then baseline
    else if is_one_of name (codes "jitter" ∷ [])
    then jitter
    else if is_one_of name (codes "items_per_call" ∷ codes "ops_per_call" ∷ [])
    then item_count
    else if is_one_of name (codes "req" ∷ codes "requires" ∷ [])
    then req
    else if is_one_of name (codes "skip" ∷ [])
    then skip
    else if is_one_of name (codes "template" ∷ [])
    then template
    else if is_one_of name (codes "parameters" ∷ [])
    then parameters
    else if is_one_of name (codes "range" ∷ [])
    then range
    else if is_one_of name (codes "linspace" ∷ [])
    then linspace
    else if is_one_of name (codes "geom" ∷ codes "geomspace" ∷ codes "geospace" ∷ [])
    then geom
    else if is_one_of name (codes "logspace" ∷ [])
    then logspace
    else if is_one_of name (codes "parameters_pack" ∷ [])
    then pack
    else if is_one_of name (codes "fixtures" ∷ [])
    then fixtures
    else other

unfoldable pub other_branch : Validation → Bytes → Bytes → List Bytes → Validation
unfolding flag_branch value_branch
other_branch v name written [] = flag_branch v name written
other_branch v name written (a ∷ arguments) = value_branch v name written (a ∷ arguments)

unfoldable pub branch : AttributeKind → Validation → Bytes → Bytes → List Bytes → Validation
unfolding test_branch bench_branch baseline_branch jitter_branch count_branch req_branch skip_branch
    template_branch parameters_branch range_branch linspace_branch geom_branch logspace_branch
    pack_branch other_branch fail
branch test v name written arguments = test_branch v arguments
branch bench v name written arguments = bench_branch v arguments
branch baseline v name written arguments = baseline_branch v arguments
branch jitter v name written arguments = jitter_branch v arguments
branch item_count v name written arguments = count_branch v name arguments
branch req v name written arguments = req_branch v arguments
branch skip v name written arguments = skip_branch v arguments
branch template v name written arguments = template_branch v arguments
branch parameters v name written arguments = parameters_branch v arguments
branch range v name written arguments = range_branch v arguments
branch linspace v name written arguments = linspace_branch v arguments
branch geom v name written arguments = geom_branch v arguments
branch logspace v name written arguments = logspace_branch v arguments
branch pack v name written arguments = pack_branch v arguments
branch fixtures v name written arguments =
    fail v (codes "'fixtures(...)' was removed; infer fixtures from function parameters instead")
branch other v name written arguments = other_branch v name written arguments

unfoldable pub validate_one : Validation → ParsedAttribute → Validation
unfolding branch kind_of
validate_one v attr =
    branch (kind_of (lowered attr.name)) v (lowered attr.name) attr.name attr.arguments

unfoldable pub validate_loop : Validation → List ParsedAttribute → Validation
unfolding validate_one
validate_loop v [] = v
validate_loop v (attr ∷ parsed) = validate_loop (validate_one v attr) parsed

abbrev pub no_summary : AttributeSummary
no_summary = record {
  is_case = false;
  case_name = none;
  tags = [];
  requirements = [];
  should_skip = false;
  skip_reason = [];
  had_error = false;
  is_benchmark = false;
  is_jitter = false;
  is_baseline = false;
  items_per_call = 1;
  template_sets = [];
  parameter_sets = [];
  parameter_ranges = [];
  parameter_linspaces = [];
  parameter_geoms = [];
  parameter_logspaces = [];
  param_packs = [];
  owner = none;
}

abbrev pub no_validation : Validation
no_validation = record {
  summary = no_summary;
  saw_case = false;
  saw_test = false;
  saw_bench = false;
  saw_jitter = false;
  saw_items_per_call = false;
  seen_flags = [];
  seen_owner = none;
  reports = [];
}

-- Neither a benchmark nor a jitter measurement.
unfoldable pub is_unmeasured : AttributeSummary → Bool
is_unmeasured s = not s.is_benchmark && not s.is_jitter

unfoldable pub check_baseline : Validation → Validation
unfolding is_unmeasured fail
check_baseline v =
    if v.summary.is_baseline && is_unmeasured v.summary
    then fail v (codes "'baseline' requires 'bench' or 'jitter' on the same declaration")
    else v

unfoldable pub check_item_count : Validation → Validation
unfolding is_unmeasured fail
check_item_count v =
    if v.saw_items_per_call && is_unmeasured v.summary
    then fail v (
        codes
          "'items_per_call'/'ops_per_call' requires 'bench' or 'jitter' on the same declaration")
    else v

unfoldable pub set_is_case : Validation → Validation
set_is_case v = record v { summary = record v.summary { is_case = v.saw_case } }

-- The summary, with the messages reported.
unfoldable pub validate_attributes : List ParsedAttribute → Validation
unfolding validate_loop check_baseline check_item_count set_is_case
validate_attributes parsed =
    set_is_case (check_item_count (check_baseline (validate_loop no_validation parsed)))
