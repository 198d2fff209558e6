-- ===== src/Generator/Validate/Branches.antt =====
-- The branches of the loop in `validate_attributes` of tools/src/validate.cpp on what a case is: its
-- kind, its tags, requirements and owner.
use gentest.Base.{
  ℕ, Bool, true, not, ◌&&◌, ◌||◌, Option, none, some, List, [], ◌∷◌, ◌++◌, Bytes, codes, bytes_eq,
  if◌then◌else◌, is_empty,
}
use gentest.Generator.Unquote.{trim_copy}
use gentest.Generator.Validate.{
  AttributeSummary, Validation, fail, is_in, add_unique, unknown_message,
}
use gentest.Generator.Validate.Positive.{parse_positive_u64}

abbrev pub with_summary : Validation → AttributeSummary → Validation
with_summary v summary = record v { summary = summary }

abbrev test_usage : Bytes
test_usage =
    codes "'test' takes zero arguments (default name) or exactly one non-empty string argument"

abbrev bench_usage : Bytes
bench_usage = codes "'bench' requires exactly one non-empty string argument"

abbrev jitter_usage : Bytes
jitter_usage = codes "'jitter' requires exactly one non-empty string argument"

unfoldable pub test_name : Validation → Bytes → Validation
unfolding fail
test_name v name =
    if is_empty name
    then fail v test_usage
    else with_summary v (record v.summary { case_name = some name })

unfoldable pub test_arguments : Validation → List Bytes → Validation
unfolding test_name trim_copy fail
test_arguments v [] = v
test_arguments v (a ∷ []) = test_name v (trim_copy a)
test_arguments v (a ∷ b ∷ arguments) = fail v test_usage

unfoldable pub test_branch : Validation → List Bytes → Validation
unfolding test_arguments
test_branch v arguments =
    if v.saw_test
    then fail v (codes "duplicate gentest attribute 'test'")
    else test_arguments (record v { saw_test = true; saw_case = true }) arguments

unfoldable pub bench_arguments : Validation → List Bytes → Validation
unfolding fail
bench_arguments v (a ∷ []) =
    if is_empty a
    then fail v bench_usage
    else with_summary v (record v.summary { case_name = some a; is_benchmark = true })
bench_arguments v _ = fail v bench_usage

unfoldable pub bench_branch : Validation → List Bytes → Validation
unfolding bench_arguments
bench_branch v arguments =
    if v.saw_bench
    then fail v (codes "duplicate gentest attribute 'bench'")
    else bench_arguments (record v { saw_bench = true; saw_case = true }) arguments

unfoldable pub baseline_branch : Validation → List Bytes → Validation
unfolding fail
baseline_branch v arguments =
    if not (is_empty arguments)
    then fail v (codes "'baseline' does not take arguments")
    else with_summary v (record v.summary { is_baseline = true })

unfoldable pub jitter_arguments : Validation → List Bytes → Validation
unfolding fail
jitter_arguments v (a ∷ []) =
    if is_empty a
    then fail v jitter_usage
    else with_summary v (record v.summary { case_name = some a; is_jitter = true })
jitter_arguments v _ = fail v jitter_usage

unfoldable pub jitter_branch : Validation → List Bytes → Validation
unfolding jitter_arguments
jitter_branch v arguments =
    if v.saw_jitter
    then fail v (codes "duplicate gentest attribute 'jitter'")
    else jitter_arguments (record v { saw_jitter = true; saw_case = true }) arguments

-- The message on the item count, by the name it is given under.
abbrev count_usage : Bytes → Bytes
count_usage name = codes "'" ++ name ++ codes "' requires exactly one positive integer argument"

unfoldable pub count_value : Validation → Bytes → Option ℕ → Validation
unfolding fail
count_value v name none = fail v (count_usage name)
count_value v name (some items_per_call) =
    with_summary v (record v.summary { items_per_call = items_per_call })

unfoldable pub count_arguments : Validation → Bytes → List Bytes → Validation
unfolding count_value parse_positive_u64 trim_copy fail
count_arguments v name (a ∷ []) = count_value v name (parse_positive_u64 (trim_copy a))
count_arguments v name _ = fail v (count_usage name)

unfoldable pub count_branch : Validation → Bytes → List Bytes → Validation
unfolding count_arguments
count_branch v name arguments =
    if v.saw_items_per_call
    then fail v (codes "duplicate measured item-count attribute")
    else count_arguments (record v { saw_items_per_call = true }) name arguments

-- The loop over the requirements.
unfoldable pub add_all : List Bytes → List Bytes → List Bytes
unfolding add_unique
add_all values [] = values
add_all values (a ∷ arguments) = add_all (add_unique values a) arguments

unfoldable pub req_branch : Validation → List Bytes → Validation
unfolding add_all fail
req_branch v arguments =
    if is_empty arguments
    then fail v (codes "'req' requires at least one string argument")
    else with_summary (record v { saw_case = true })
        (record v.summary { requirements = add_all v.summary.requirements arguments })

unfoldable pub reason_from : Bytes → List Bytes → Bytes
reason_from reason [] = reason
reason_from reason (a ∷ arguments) = reason_from (reason ++ codes ", " ++ a) arguments

unfoldable pub skip_reason_of : Bytes → List Bytes → Bytes
unfolding reason_from
skip_reason_of reason [] = reason
skip_reason_of reason (a ∷ arguments) = reason_from a arguments

unfoldable pub skip_branch : Validation → List Bytes → Validation
unfolding skip_reason_of
skip_branch v arguments =
    with_summary (record v { saw_case = true })
      (record v.summary {
        should_skip = true;
        skip_reason = skip_reason_of v.summary.skip_reason arguments;
      })

abbrev pub allowed_flags : List Bytes
allowed_flags = codes "fast" ∷ codes "slow" ∷ codes "linux" ∷ codes "windows" ∷ codes "death" ∷ []

unfoldable pub is_allowed_flag_attribute : Bytes → Bool
unfolding is_in
is_allowed_flag_attribute = is_in allowed_flags

-- `linux` and `windows` exclude each other.
unfoldable pub conflicts : List Bytes → Bytes → Bool
unfolding is_in bytes_eq
conflicts seen name =
    (bytes_eq name (codes "linux") && is_in seen (codes "windows"))
    || (bytes_eq name (codes "windows") && is_in seen (codes "linux"))

-- An attribute without arguments, under its name in small letters and as written.
unfoldable pub flag_seen : Validation → Bytes → Bytes → Validation
unfolding is_in conflicts add_unique fail
flag_seen v name written =
    if is_in v.seen_flags name
    then fail v (codes "duplicate gentest flag attribute '" ++ written ++ codes "'")
    else if conflicts v.seen_flags name
    then fail v (codes "conflicting gentest flags 'linux' and 'windows'")
    else with_summary (record v { seen_flags = v.seen_flags ++ name ∷ [] })
        (record v.summary { tags = add_unique v.summary.tags written })

unfoldable pub flag_branch : Validation → Bytes → Bytes → Validation
unfolding flag_seen is_allowed_flag_attribute fail unknown_message
flag_branch v name written =
    if not (is_allowed_flag_attribute name)
    then fail v (unknown_message (codes "attribute") written [])
    else flag_seen (record v { saw_case = true }) name written

unfoldable pub owner_seen : Validation → Bytes → Bytes → Validation
unfolding add_unique
owner_seen v written owner =
    with_summary (record v { saw_case = true; seen_owner = some owner })
      (record v.summary {
        owner = some owner;
        tags = add_unique v.summary.tags (written ++ codes "=" ++ owner);
      })

unfoldable pub owner_once : Option Bytes → Validation → Bytes → Bytes → Validation
unfolding owner_seen fail
owner_once (some before) v written owner = fail v (codes "duplicate 'owner' attribute")
owner_once none v written owner = owner_seen v written owner

-- An attribute with arguments; the only one that is allowed is `owner`.
unfoldable pub value_branch : Validation → Bytes → Bytes → List Bytes → Validation
unfolding owner_once fail unknown_message bytes_eq
value_branch v name written (a ∷ []) =
    if not (bytes_eq name (codes "owner"))
    then fail v (unknown_message (codes "attribute") written (a ∷ []))
    else owner_once v.seen_owner v written a
value_branch v name written arguments =
    if not (bytes_eq name (codes "owner"))
    then fail v (unknown_message (codes "attribute") written arguments)
    else fail v (codes "'owner' requires exactly one string argument")
