-- ===== src/Cli/Parse.antt =====
-- `parse_cli` of src/runner_cli.cpp: the loop over the arguments, and what follows it. The result is
-- the options, or nothing where the function returns false.
pub mod Validity
pub mod Spelling
use Prim.Native.Nat.{bit_xor}
use gentest.Base.{
  ℕ, ◌*◌, ◌%◌, ◌^◌, Bool, true, false, not, ◌&&◌, ◌||◌, Option, none, some, List, [], ◌∷◌, Bytes,
  bytes_eq, codes, ltb, ◌==◌, if◌then◌else◌, is_empty,
}
use gentest.Options.{
  CliOptions, BenchConfig, Mode, execute, help, list_tests, list_meta, list_json, list_death,
  list_benches, KindFilter, jitter,
}
use gentest.Cli.Host.{Doubles, Process}
use gentest.Cli.Values.{OptionParseResult, no_match, consumed, error, parse_value_option}
use gentest.Cli.State.{Parsing, Seen, initial}
use gentest.Cli.Arguments.{
  ◌or_else◌, unless, with_opt, flag_option, seed_value_of, repeat_value_of, async_log_tail_value_of,
  run_value_of, filter_value_of, kind_value_of, time_unit_value_of, report_format_value_of,
  junit_value_of, allure_value_of, removed, warmup_value_of, epochs_value_of, jitter_bins_value_of,
  min_epoch_value_of, min_total_value_of, max_total_value_of,
}

module _ (d : Doubles) where
  open d use {Double, is_positive, greater}

  -- The body of the loop, in the order in which the options are tried. What matches nothing is an
  -- error.
  unfoldable pub parse_argument :
      Bytes → List (Option Bytes) → Parsing Double → OptionParseResult (Parsing Double)
  parse_argument s more st =
      flag_option s st
      or_else parse_value_option s more (codes "--seed") (seed_value_of st)
      or_else unless st.seen.repeat
          (parse_value_option s more (codes "--repeat") (repeat_value_of st))
      or_else parse_value_option s more (codes "--async-log-tail") (async_log_tail_value_of st)
      or_else parse_value_option s more (codes "--run") (run_value_of st)
      or_else parse_value_option s more (codes "--filter") (filter_value_of st)
      or_else parse_value_option s more (codes "--kind") (kind_value_of st)
      or_else parse_value_option s more (codes "--time-unit") (time_unit_value_of st)
      or_else parse_value_option s more (codes "--report-format") (report_format_value_of st)
      or_else parse_value_option s more (codes "--junit") (junit_value_of st)
      or_else parse_value_option s more (codes "--allure-dir") (allure_value_of st)
      or_else removed s more (codes "--run-test")
      or_else removed s more (codes "--run-bench")
      or_else removed s more (codes "--bench-filter")
      or_else unless st.seen.bench_min_epoch_time
          (parse_value_option s more (codes "--bench-min-epoch-time-s") (min_epoch_value_of d st))
      or_else unless st.seen.bench_min_total_time
          (parse_value_option s more (codes "--bench-min-total-time-s") (min_total_value_of d st))
      or_else unless st.seen.bench_max_total_time
          (parse_value_option s more (codes "--bench-max-total-time-s") (max_total_value_of d st))
      or_else unless st.seen.bench_warmup
          (parse_value_option s more (codes "--bench-warmup") (warmup_value_of st))
      or_else unless st.seen.bench_epochs
          (parse_value_option s more (codes "--bench-epochs") (epochs_value_of st))
      or_else removed s more (codes "--run-jitter")
      or_else removed s more (codes "--jitter-filter")
      or_else unless st.seen.jitter_bins
          (parse_value_option s more (codes "--jitter-bins") (jitter_bins_value_of st))
      or_else error

  -- The loop; `skip` says that the last option took this argument (`++i`). A null argument is passed
  -- over.
  unfoldable pub parse_arguments :
      Bool → List (Option Bytes) → Parsing Double → Option (Parsing Double)
  parse_arguments skip [] st = some st
  parse_arguments true (arg ∷ more) st = parse_arguments false more st
  parse_arguments false (none ∷ more) st = parse_arguments false more st
  parse_arguments false (some s ∷ more) st = elim (parse_argument s more st) [
    | consumed st' skip ↦ parse_arguments skip more st'
    | no_match ↦ none
    | error ↦ none
  ]

  -- `start`: argv[0] is passed over if it is no option.
  abbrev is_program : List (Option Bytes) → Bool
  is_program [] = false
  is_program (none ∷ more) = false
  is_program (some [] ∷ more) = true
  is_program (some (c ∷ s) ∷ more) = not (c == b'-')

  abbrev mode_of : Parsing Double → Mode
  mode_of st =
      if st.wants_help
      then help
      else if st.wants_list_tests
      then list_tests
      else if st.wants_list_meta
      then list_meta
      else if st.wants_list_json
      then list_json
      else if st.wants_list_death
      then list_death
      else if st.wants_list_benches
      then list_benches
      else execute

  abbrev at_least_one : ℕ → ℕ
  at_least_one n = if n == 0 then 1 else n

  abbrev is_jitter : KindFilter → Bool
  is_jitter jitter = true
  is_jitter _ = false

  module _ (process : Process) where
    open process use {env_value, stdout_is_tty, random_high, random_low}

    abbrev has_value : Bytes → Bool
    has_value name = not (is_empty (env_value name))

    unfoldable pub env_flag_enabled : Bytes → Bool
    env_flag_enabled name =
        let value = env_value name in
        bytes_eq value (codes "1")
        || bytes_eq value (codes "true")
        || bytes_eq value (codes "TRUE")
        || bytes_eq value (codes "yes")
        || bytes_eq value (codes "YES")
        || bytes_eq value (codes "on")
        || bytes_eq value (codes "ON")

    unfoldable pub env_flag_disabled : Bytes → Bool
    env_flag_disabled name =
        let value = env_value name in
        bytes_eq value (codes "0")
        || bytes_eq value (codes "false")
        || bytes_eq value (codes "FALSE")
        || bytes_eq value (codes "no")
        || bytes_eq value (codes "NO")
        || bytes_eq value (codes "off")
        || bytes_eq value (codes "OFF")

    unfoldable pub env_no_color : Bool
    env_no_color = has_value (codes "NO_COLOR") || has_value (codes "GENTEST_NO_COLOR")

    unfoldable pub env_plain_output : Bool
    unfolding env_flag_enabled env_flag_disabled
    env_plain_output =
        not stdout_is_tty
        || bytes_eq (env_value (codes "TERM")) (codes "dumb")
        || has_value (codes "CI")
        || has_value (codes "CODEX_CI")
        || env_flag_enabled (codes "GENTEST_NO_ASYNC_LIVE")
        || env_flag_disabled (codes "GENTEST_ASYNC_LIVE")

    -- Two 32-bit numbers side by side.
    unfoldable pub make_random_seed : ℕ
    make_random_seed = bit_xor (random_high * 2 ^ 32 % 2 ^ 64) random_low

    -- The options of a command line that was read to its end.
    abbrev settled : Parsing Double → CliOptions Double
    settled st = record st.opt {
      color_output = not st.no_color_flag && not env_no_color && not env_plain_output;
      github_annotations = st.github_annotations_flag || has_value (codes "GITHUB_ACTIONS");
      bench_cfg = record st.opt.bench_cfg {
        measure_epochs = at_least_one st.opt.bench_cfg.measure_epochs;
      };
      mode = mode_of st;
      shuffle_seed =
          if st.opt.shuffle
          then if st.opt.seed_provided then st.opt.seed_value else make_random_seed
          else st.opt.shuffle_seed;
    }

    unfoldable pub finish : Parsing Double → Option (CliOptions Double)
    unfolding env_no_color env_plain_output make_random_seed
    finish st =
        let cfg = st.opt.bench_cfg in
        if is_positive cfg.max_total_time_s && greater cfg.min_total_time_s cfg.max_total_time_s
        then none
        else if st.opt.bench_table && is_jitter st.opt.kind
        then none
        else some (settled st)

    unfoldable pub parse_cli : List (Option Bytes) → Option (CliOptions Double)
    unfolding parse_arguments finish initial
    parse_cli args = elim (parse_arguments (is_program args) args (initial d)) [
      | none ↦ none
      | some st ↦ finish st
    ]
