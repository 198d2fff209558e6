-- ===== src/Cli/Arguments.antt =====
-- The attempts of `parse_cli`, src/runner_cli.cpp, at one argument `s`; `more` are the arguments
-- behind it. Messages on stderr are left out.
use mathlib.Core.Option
use gentest.Base.{
  ℕ, Bool, true, false, ◌||◌, Option, none, some, List, Bytes, bytes_eq, codes, ltb, ◌==◌,
  if◌then◌else◌,
}
use gentest.Options.{CliOptions, BenchConfig}
use gentest.Cli.Host.{Doubles}
use gentest.Cli.Values.{
  OptionParseResult, no_match, consumed, error, parse_value_option, parse_u64_option,
  parse_kind_option, parse_time_unit_option, parse_report_format_option, set_unique_string_option,
  parse_non_negative_double_option,
}
use gentest.Cli.State.{Parsing, size_max, int_max}

-- The next attempt is made where this one does not match.
infixr 5 ◌or_else◌
abbrev pub ◌or_else◌ :
    {S : Type 0} → OptionParseResult S → OptionParseResult S → OptionParseResult S
no_match or_else next = next
consumed st skip or_else next = consumed st skip
error or_else next = error

-- `if (!seen)`: an option that was seen is not tried again.
abbrev pub unless : {S : Type 0} → Bool → OptionParseResult S → OptionParseResult S
unless true attempt = no_match
unless false attempt = attempt

-- `if (seen) return false;` of the value's handler.
abbrev pub once : {A : Type 0} → Bool → Option A → Option A
once true result = none
once false result = result

abbrev pub bind : {A B : Type 0} → Option A → (A → Option B) → Option B
bind none f = none
bind (some a) f = f a

abbrev pub with_opt : {D : Type 0} → Parsing D → CliOptions D → Parsing D
with_opt st opt = record st { opt = opt }

abbrev pub with_bench : {D : Type 0} → Parsing D → BenchConfig D → Parsing D
with_bench st cfg = record st { opt = record st.opt { bench_cfg = cfg } }

-- The options without a value.
unfoldable pub flag_option : {D : Type 0} → Bytes → Parsing D → OptionParseResult (Parsing D)
flag_option s st =
    if bytes_eq s (codes "--help")
    then consumed (record st { wants_help = true }) false
    else if bytes_eq s (codes "--list-tests")
    then consumed (record st { wants_list_tests = true }) false
    else if bytes_eq s (codes "--list")
    then consumed (record st { wants_list_meta = true }) false
    else if bytes_eq s (codes "--list-json")
    then consumed (record st { wants_list_json = true }) false
    else if bytes_eq s (codes "--list-death")
    then consumed (record st { wants_list_death = true }) false
    else if bytes_eq s (codes "--list-benches")
    then consumed (record st { wants_list_benches = true }) false
    else if bytes_eq s (codes "--no-color")
    then consumed (record st { no_color_flag = true }) false
    else if bytes_eq s (codes "--github-annotations")
    then consumed (record st { github_annotations_flag = true }) false
    else if bytes_eq s (codes "--fail-fast")
    then consumed (with_opt st (record st.opt { fail_fast = true })) false
    else if bytes_eq s (codes "--shuffle")
    then consumed (with_opt st (record st.opt { shuffle = true })) false
    else if bytes_eq s (codes "--include-death")
    then consumed (with_opt st (record st.opt { include_death = true })) false
    else if bytes_eq s (codes "--bench-table")
    then consumed (with_opt st (record st.opt { bench_table = true })) false
    else no_match

-- The first `--seed` counts.
abbrev pub set_seed : {D : Type 0} → Parsing D → ℕ → Parsing D
set_seed st seed_value =
    if st.opt.seed_provided
    then st
    else with_opt st (record st.opt { seed_provided = true; seed_value = seed_value })

unfoldable pub seed_value_of : {D : Type 0} → Parsing D → Bytes → Option (Parsing D)
seed_value_of st value = Option.map (set_seed st) (parse_u64_option value)

abbrev pub clamp_repeat : ℕ → ℕ
clamp_repeat rep =
    let rep' : ℕ = if rep == 0 then 1 else rep in if ltb 1_000_000 rep' then 1_000_000 else rep'

abbrev pub set_repeat : {D : Type 0} → Parsing D → ℕ → Parsing D
set_repeat st rep = record st {
  opt = record st.opt { repeat_n = clamp_repeat rep };
  seen = record st.seen { repeat = true };
}

unfoldable pub repeat_value_of : {D : Type 0} → Parsing D → Bytes → Option (Parsing D)
repeat_value_of st value = Option.map (set_repeat st) (parse_u64_option value)

abbrev pub in_size : ℕ → Option ℕ
in_size n = if ltb size_max n then none else some n

abbrev pub set_async_log_tail : {D : Type 0} → Parsing D → ℕ → Parsing D
set_async_log_tail st tail = record st {
  opt = record st.opt { async_log_tail = tail };
  seen = record st.seen { async_log_tail = true };
}

unfoldable pub async_log_tail_value_of : {D : Type 0} → Parsing D → Bytes → Option (Parsing D)
async_log_tail_value_of st value =
    once st.seen.async_log_tail
      (Option.map (set_async_log_tail st) (bind (parse_u64_option value) in_size))

unfoldable pub run_value_of : {D : Type 0} → Parsing D → Bytes → Option (Parsing D)
run_value_of st value =
    Option.map (λ v. with_opt st (record st.opt { run_exact = some v }))
      (set_unique_string_option st.opt.run_exact value)

unfoldable pub filter_value_of : {D : Type 0} → Parsing D → Bytes → Option (Parsing D)
filter_value_of st value =
    Option.map (λ v. with_opt st (record st.opt { filter_pat = some v }))
      (set_unique_string_option st.opt.filter_pat value)

unfoldable pub kind_value_of : {D : Type 0} → Parsing D → Bytes → Option (Parsing D)
kind_value_of st value =
    Option.map (λ k. with_opt st (record st.opt { kind = k })) (parse_kind_option value)

unfoldable pub time_unit_value_of : {D : Type 0} → Parsing D → Bytes → Option (Parsing D)
time_unit_value_of st value = once st.seen.time_unit (
    Option.map
      (λ m. record st {
        opt = record st.opt { time_unit_mode = m };
        seen = record st.seen { time_unit = true };
      })
      (parse_time_unit_option value))

unfoldable pub report_format_value_of : {D : Type 0} → Parsing D → Bytes → Option (Parsing D)
report_format_value_of st value = once st.seen.report_format (
    Option.map
      (λ f. record st {
        opt = record st.opt { measured_report_format = f };
        seen = record st.seen { report_format = true };
      })
      (parse_report_format_option value))

unfoldable pub junit_value_of : {D : Type 0} → Parsing D → Bytes → Option (Parsing D)
junit_value_of st value =
    Option.map (λ v. with_opt st (record st.opt { junit_path = some v }))
      (set_unique_string_option st.opt.junit_path value)

unfoldable pub allure_value_of : {D : Type 0} → Parsing D → Bytes → Option (Parsing D)
allure_value_of st value =
    Option.map (λ v. with_opt st (record st.opt { allure_dir = some v }))
      (set_unique_string_option st.opt.allure_dir value)

-- A removed option is refused, with or without a value.
abbrev pub removed :
    {D : Type 0} → Bytes → List (Option Bytes) → Bytes → OptionParseResult (Parsing D)
removed s more opt_name = parse_value_option s more opt_name (λ value. none)

unfoldable pub warmup_value_of : {D : Type 0} → Parsing D → Bytes → Option (Parsing D)
warmup_value_of st value =
    Option.map
      (λ n. record (with_bench st (record st.opt.bench_cfg { warmup_epochs = n })) {
        seen = record st.seen { bench_warmup = true };
      })
      (bind (parse_u64_option value) in_size)

unfoldable pub epochs_value_of : {D : Type 0} → Parsing D → Bytes → Option (Parsing D)
epochs_value_of st value =
    Option.map
      (λ n. record (with_bench st (record st.opt.bench_cfg { measure_epochs = n })) {
        seen = record st.seen { bench_epochs = true };
      })
      (bind (parse_u64_option value) in_size)

abbrev pub positive_int : ℕ → Option ℕ
positive_int bins = if (bins == 0) || ltb int_max bins then none else some bins

unfoldable pub jitter_bins_value_of : {D : Type 0} → Parsing D → Bytes → Option (Parsing D)
jitter_bins_value_of st value =
    Option.map
      (λ n. record st {
        opt = record st.opt { jitter_bins = n };
        seen = record st.seen { jitter_bins = true };
      })
      (bind (parse_u64_option value) positive_int)

module _ (d : Doubles) where
  open d use {Double}

  unfoldable pub min_epoch_value_of : Parsing Double → Bytes → Option (Parsing Double)
  min_epoch_value_of st value =
      Option.map
        (λ t. record (with_bench st (record st.opt.bench_cfg { min_epoch_time_s = t })) {
          seen = record st.seen { bench_min_epoch_time = true };
        })
        (parse_non_negative_double_option d value)

  unfoldable pub min_total_value_of : Parsing Double → Bytes → Option (Parsing Double)
  min_total_value_of st value =
      Option.map
        (λ t. record (with_bench st (record st.opt.bench_cfg { min_total_time_s = t })) {
          seen = record st.seen { bench_min_total_time = true };
        })
        (parse_non_negative_double_option d value)

  unfoldable pub max_total_value_of : Parsing Double → Bytes → Option (Parsing Double)
  max_total_value_of st value =
      Option.map
        (λ t. record (with_bench st (record st.opt.bench_cfg { max_total_time_s = t })) {
          seen = record st.seen { bench_max_total_time = true };
        })
        (parse_non_negative_double_option d value)
