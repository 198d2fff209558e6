-- ===== src/Cli/Values.antt =====
-- `parse_cli` of src/runner_cli.cpp, its local functions: the value of an option, and how each kind
-- of value is read.
use gentest.Base.{
  ℕ, Bool, true, false, ◌||◌, Option, none, some, List, [], ◌∷◌, Bytes, bytes_eq, strip_prefix,
  codes, ◌==◌, not, if◌then◌else◌, is_empty, length,
}
use gentest.Options.{
  KindFilter, all, test, bench, jitter, TimeUnitMode, auto, ns, MeasuredReportFormat, table,
  markdown, csv, json,
}
use gentest.Cli.Decimal.{parse_u64_decimal_strict, ok, ParseU64DecimalResult}
use gentest.Cli.Host.{Doubles}

-- `yes_with value skip`: the value, and whether it is the next argument (`++i`).
pub data ValueMatch : Type 0 where
  no_value : ValueMatch
  yes_with : Bytes → Bool → ValueMatch
  error : ValueMatch

-- The value in the next argument.
unfoldable pub next_value : List (Option Bytes) → ValueMatch
next_value [] = error
next_value (none ∷ more) = error
next_value (some value ∷ more) = if is_empty value then error else yes_with value true

-- What stands behind the option's name in the same argument.
unfoldable pub inline_value : Option Bytes → ValueMatch
inline_value none = no_value
inline_value (some []) = no_value
inline_value (some (c ∷ value)) =
    if c == b'=' then if is_empty value then error else yes_with value false else no_value

unfoldable pub match_value : Bytes → List (Option Bytes) → Bytes → ValueMatch
unfolding next_value inline_value
match_value s more opt_name =
    if bytes_eq s opt_name then next_value more else inline_value (strip_prefix opt_name s)

-- The result of an attempt at one option; `consumed` holds the new state, and whether the next
-- argument went with it.
pub data OptionParseResult (S : Type 0) : Type 0 where
  no_match : OptionParseResult S
  consumed : S → Bool → OptionParseResult S
  error : OptionParseResult S

abbrev pub with_value : {S : Type 0} → Option S → Bool → OptionParseResult S
with_value none skip = error
with_value (some st) skip = consumed st skip

unfoldable pub parse_value_option :
    {S : Type 0} → Bytes → List (Option Bytes) → Bytes → (Bytes → Option S) → OptionParseResult S
unfolding match_value
parse_value_option s more opt_name on_value = elim (match_value s more opt_name) [
  | ValueMatch.error ↦ error
  | yes_with value skip ↦ with_value (on_value value) skip
  | no_value ↦ no_match
]

abbrev pub u64_value : ParseU64DecimalResult → Option ℕ
u64_value r = elim r.status [ ok ↦ some r.value | _ ↦ none ]

unfoldable pub parse_u64_option : Bytes → Option ℕ
parse_u64_option value = u64_value (parse_u64_decimal_strict value)

unfoldable pub parse_kind_option : Bytes → Option KindFilter
parse_kind_option value =
    if bytes_eq value (codes "all")
    then some all
    else if bytes_eq value (codes "test") || bytes_eq value (codes "tests")
    then some test
    else if bytes_eq value (codes "bench")
        || bytes_eq value (codes "benches")
        || bytes_eq value (codes "benchmark")
        || bytes_eq value (codes "benchmarks")
    then some bench
    else if bytes_eq value (codes "jitter") || bytes_eq value (codes "jitters")
    then some jitter
    else none

unfoldable pub parse_time_unit_option : Bytes → Option TimeUnitMode
parse_time_unit_option value =
    if bytes_eq value (codes "auto")
    then some auto
    else if bytes_eq value (codes "ns")
    then some ns
    else none

unfoldable pub parse_report_format_option : Bytes → Option MeasuredReportFormat
parse_report_format_option value =
    if bytes_eq value (codes "table")
    then some table
    else if bytes_eq value (codes "markdown") || bytes_eq value (codes "md")
    then some markdown
    else if bytes_eq value (codes "csv")
    then some csv
    else if bytes_eq value (codes "json")
    then some json
    else none

-- A second value is refused.
unfoldable pub set_unique_string_option : Option Bytes → Bytes → Option Bytes
set_unique_string_option (some old) value = none
set_unique_string_option none value = some value

module _ (d : Doubles) where
  open d use {Double, stod, is_finite, is_negative}

  abbrev whole_number : Bytes → Option (Double × ℕ) → Option Double
  whole_number value none = none
  whole_number value (some (out, idx)) =
      if not (idx == length value) || not (is_finite out) then none else some out

  unfoldable pub parse_double_option : Bytes → Option Double
  parse_double_option value = if is_empty value then none else whole_number value (stod value)

  abbrev unless_negative : Option Double → Option Double
  unless_negative none = none
  unless_negative (some out) = if is_negative out then none else some out

  unfoldable pub parse_non_negative_double_option : Bytes → Option Double
  unfolding parse_double_option
  parse_non_negative_double_option value = unless_negative (parse_double_option value)
