-- ===== src/Cli/Parse/Validity.antt =====
-- The bounds on the options that `parse_cli` returns.
use gentest.Base.{
  ◌≤◌, ◌≡◌, subst, ◌≢◌, Bool, true, false, Option, none, some, List, [], ◌∷◌, Bytes, arith,
  if◌then◌else◌, if-cases, ◌&&◌,
}
use gentest.Options.{CliOptions, jitter}
use gentest.Cli.Decimal.{
  parse_u64_decimal_strict, ParseU64DecimalResult, u64_max, parse_u64_iff, ok,
}
use gentest.Cli.Host.{Doubles, Process}
use gentest.Cli.Values.{
  OptionParseResult, no_match, consumed, error, with_value, parse_value_option, match_value,
  yes_with, no_value, ValueMatch, parse_u64_option, u64_value, parse_non_negative_double_option,
}
use gentest.Cli.State.{Parsing, initial, int_max}
use gentest.Cli.Arguments.{
  ◌or_else◌, unless, flag_option, seed_value_of, repeat_value_of, async_log_tail_value_of,
  run_value_of, filter_value_of, kind_value_of, time_unit_value_of, report_format_value_of,
  junit_value_of, allure_value_of, warmup_value_of, epochs_value_of, jitter_bins_value_of,
  min_epoch_value_of, min_total_value_of, max_total_value_of,
}
use gentest.Cli.Parse.{
  parse_argument, parse_arguments, is_jitter, is_program, settled, finish, parse_cli,
}

-- A time of the command line: a finite number that is not negative.
abbrev pub IsTime : (d : Doubles) → d.Double → Type 0
IsTime d t = (d.is_finite t ≡ true) × (d.is_negative t ≡ false)

pub record InRange (d : Doubles) (opt : CliOptions d.Double) : Type 0 where
  pub repeats : (1 ≤ opt.repeat_n) × (opt.repeat_n ≤ 1_000_000)
  pub bins : (1 ≤ opt.jitter_bins) × (opt.jitter_bins ≤ int_max)
  pub words :
      (opt.async_log_tail ≤ u64_max)
      × (opt.bench_cfg.warmup_epochs ≤ u64_max)
      × (opt.bench_cfg.measure_epochs ≤ u64_max)
      × (opt.seed_value ≤ u64_max)
  pub min_epoch : IsTime d opt.bench_cfg.min_epoch_time_s
  pub min_total : IsTime d opt.bench_cfg.min_total_time_s
  pub max_total : IsTime d opt.bench_cfg.max_total_time_s

abbrev Holds : {S : Type 0} → (S → Type 0) → Option S → Type 0
Holds P none = Unit {0}
Holds P (some st) = P st

-- An attempt leaves a state of which `P` holds, if it matches.
data Leaves {S : Type 0} (P : S → Type 0) : OptionParseResult S → Type 0 where
  leaves : {st : S} {skip : Bool} → P st → Leaves P (consumed st skip)
  passes : Leaves P no_match
  fails : Leaves P error

u64_value-le :
    (r : ParseU64DecimalResult)
    → (r.status ≡ ok → r.value ≤ u64_max)
    → Holds (λ n. n ≤ u64_max) (u64_value r)
u64_value-le r h = ground arith

parse_u64_option-le : (value : Bytes) → Holds (λ n. n ≤ u64_max) (parse_u64_option value)
unfolding parse_u64_option
parse_u64_option-le value =
    let r = parse_u64_decimal_strict value in
    u64_value-le r
      λ e. ((parse_u64_iff value r.value).0 (λ i. record { value = r.value; status = e i })).3

module _ (d : Doubles) where
  open d use {Double}

  abbrev Good : Parsing Double → Type 0
  Good st = InRange d st.opt

  non_negative-IsTime :
      (value : Bytes) → Holds (IsTime d) (parse_non_negative_double_option d value)
  unfolding parse_non_negative_double_option
  non_negative-IsTime value = ground arith

  module _ (st : Parsing Double) (g : Good st) (value : Bytes) where
    seed-Good : Holds Good (seed_value_of st value)
    unfolding seed_value_of
    seed-Good = ground (arith, parse_u64_option-le value)

    repeat-Good : Holds Good (repeat_value_of st value)
    unfolding repeat_value_of
    repeat-Good = ground arith

    async_log_tail-Good : Holds Good (async_log_tail_value_of st value)
    unfolding async_log_tail_value_of
    async_log_tail-Good = ground (arith, parse_u64_option-le value)

    run-Good : Holds Good (run_value_of st value)
    unfolding run_value_of
    run-Good = ground arith

    filter-Good : Holds Good (filter_value_of st value)
    unfolding filter_value_of
    filter-Good = ground arith

    kind-Good : Holds Good (kind_value_of st value)
    unfolding kind_value_of
    kind-Good = ground arith

    time_unit-Good : Holds Good (time_unit_value_of st value)
    unfolding time_unit_value_of
    time_unit-Good = ground arith

    report_format-Good : Holds Good (report_format_value_of st value)
    unfolding report_format_value_of
    report_format-Good = ground arith

    junit-Good : Holds Good (junit_value_of st value)
    unfolding junit_value_of
    junit-Good = ground arith

    allure-Good : Holds Good (allure_value_of st value)
    unfolding allure_value_of
    allure-Good = ground arith

    warmup-Good : Holds Good (warmup_value_of st value)
    unfolding warmup_value_of
    warmup-Good = ground (arith, parse_u64_option-le value)

    epochs-Good : Holds Good (epochs_value_of st value)
    unfolding epochs_value_of
    epochs-Good = ground (arith, parse_u64_option-le value)

    jitter_bins-Good : Holds Good (jitter_bins_value_of st value)
    unfolding jitter_bins_value_of
    jitter_bins-Good = ground (arith, parse_u64_option-le value)

    min_epoch-Good : Holds Good (min_epoch_value_of d st value)
    unfolding min_epoch_value_of
    min_epoch-Good = ground (arith, non_negative-IsTime value)

    min_total-Good : Holds Good (min_total_value_of d st value)
    unfolding min_total_value_of
    min_total-Good = ground (arith, non_negative-IsTime value)

    max_total-Good : Holds Good (max_total_value_of d st value)
    unfolding max_total_value_of
    max_total-Good = ground (arith, non_negative-IsTime value)

  module _ {P : Parsing Double → Type 0} where
    or_else-Leaves :
        {a b : OptionParseResult (Parsing Double)}
        → Leaves P a
        → Leaves P b
        → Leaves P (a or_else b)
    or_else-Leaves (leaves h) hb = leaves h
    or_else-Leaves passes hb = hb
    or_else-Leaves fails hb = fails

    unless-Leaves :
        (seen : Bool) {a : OptionParseResult (Parsing Double)}
        → Leaves P a
        → Leaves P (unless seen a)
    unless-Leaves true h = passes
    unless-Leaves false h = h

    if-Leaves :
        (b : Bool) {x y : OptionParseResult (Parsing Double)}
        → Leaves P x
        → Leaves P y
        → Leaves P (if b then x else y)
    if-Leaves true hx hy = hx
    if-Leaves false hx hy = hy

    with_value-Leaves :
        (r : Option (Parsing Double)) (skip : Bool) → Holds P r → Leaves P (with_value r skip)
    with_value-Leaves none skip h = fails
    with_value-Leaves (some st) skip h = leaves h

    value-Leaves :
        (s : Bytes) (more : List (Option Bytes)) (name : Bytes)
        (on_value : Bytes → Option (Parsing Double))
        → ((value : Bytes) → Holds P (on_value value))
        → Leaves P (parse_value_option s more name on_value)
    unfolding parse_value_option
    value-Leaves s more name on_value h = split (match_value s more name)
      where
        split :
            (m : ValueMatch)
            → Leaves P (elim m [
              | ValueMatch.error ↦ error
              | yes_with value skip ↦ with_value (on_value value) skip
              | no_value ↦ no_match
            ])
        split no_value = passes
        split (yes_with value skip) = with_value-Leaves (on_value value) skip (h value)
        split ValueMatch.error = fails

  flag-Good : (s : Bytes) (st : Parsing Double) → Good st → Leaves Good (flag_option s st)
  unfolding flag_option
  flag-Good s st g = search (if-Leaves, leaves, passes, g) depth 20

  parse_argument-Good :
      (s : Bytes) (more : List (Option Bytes)) (st : Parsing Double)
      → Good st
      → Leaves Good (parse_argument d s more st)
  unfolding parse_argument
  parse_argument-Good s more st g =
      search
        (
          or_else-Leaves, unless-Leaves, value-Leaves, flag-Good, fails, g, seed-Good, repeat-Good,
          async_log_tail-Good, run-Good, filter-Good, kind-Good, time_unit-Good, report_format-Good,
          junit-Good, allure-Good, warmup-Good, epochs-Good, jitter_bins-Good, min_epoch-Good,
          min_total-Good, max_total-Good,
        )
        depth 30

  parse_arguments-Good :
      (skip : Bool) (args : List (Option Bytes)) (st : Parsing Double)
      → Good st
      → Holds Good (parse_arguments d skip args st)
  unfolding parse_arguments
  parse_arguments-Good skip [] st g = g
  parse_arguments-Good true (arg ∷ more) st g = parse_arguments-Good false more st g
  parse_arguments-Good false (none ∷ more) st g = parse_arguments-Good false more st g
  parse_arguments-Good false (some s ∷ more) st g =
      go (parse_argument d s more st) (parse_argument-Good s more st g)
        (λ skip st'. parse_arguments-Good skip more st')
    where
      go :
          (r : OptionParseResult (Parsing Double))
          → Leaves Good r
          → ((skip : Bool) (st : Parsing Double)
              → Good st
              → Holds Good (parse_arguments d skip more st))
          → Holds Good (elim r [
            | consumed st' skip ↦ parse_arguments d skip more st'
            | no_match ↦ none
            | error ↦ none
          ])
      go (consumed st' skip) (leaves h) ih = ih skip st' h
      go no_match passes ih = tt
      go error fails ih = tt

  initial-Good :
      IsTime d d.default_min_epoch_time
      → IsTime d d.default_min_total_time
      → IsTime d d.default_max_total_time
      → Good (initial d)
  unfolding initial
  initial-Good e m x = ground arith

  -- What else holds of the options that are returned.
  pub record Consistent (opt : CliOptions Double) : Type 0 where
    pub in_range : InRange d opt
    pub epochs : 1 ≤ opt.bench_cfg.measure_epochs
    pub totals :
        d.is_positive opt.bench_cfg.max_total_time_s ≡ true
        → d.greater opt.bench_cfg.min_total_time_s opt.bench_cfg.max_total_time_s ≡ false
    pub table_kind : opt.bench_table ≡ true → opt.kind ≢ jitter
    pub seeded : opt.shuffle ≡ true → opt.seed_provided ≡ true → opt.shuffle_seed ≡ opt.seed_value

  finish-Consistent :
      (process : Process) (st : Parsing Double) → Good st → Holds Consistent (finish d process st)
  unfolding finish
  finish-Consistent process st g =
      if-cases (Holds Consistent)
        (d.is_positive max_total_time_s && d.greater min_total_time_s max_total_time_s) none _
        (λ e. tt)
        λ totals.
          if-cases (Holds Consistent) (st.opt.bench_table && is_jitter d st.opt.kind) none
            (some (settled d process st)) (λ e. tt)
            λ kinds. record {
              in_range = ground arith;
              epochs = ground arith;
              totals = ground arith;
              table_kind = ground arith;
              seeded = ground arith;
            }
    where
      open st.opt.bench_cfg use {min_total_time_s, max_total_time_s}

-- Options that `parse_cli` returns are in range: 1 to 1,000,000 repeats, 1 to INT_MAX jitter bins,
-- at least one measured epoch, counts and seed of at most 64 bits, finite times that are not
-- negative (where the default times are such). A positive maximal total time is not below the
-- minimal one, `--bench-table` does not go with `--kind=jitter`, and a run that shuffles under a
-- given seed uses that seed.
pub parse_cli-Consistent :
    (d : Doubles) (process : Process) (args : List (Option Bytes)) (opt : CliOptions d.Double)
    → IsTime d d.default_min_epoch_time
    → IsTime d d.default_min_total_time
    → IsTime d d.default_max_total_time
    → parse_cli d process args ≡ some opt
    → Consistent d opt
unfolding parse_cli
parse_cli-Consistent d process args opt e m x h =
    read (parse_arguments d (is_program d args) args (initial d))
      (parse_arguments-Good d (is_program d args) args (initial d) (initial-Good d e m x)) h
  where
    read :
        (r : Option (Parsing d.Double))
        → Holds (Good d) r
        → (elim r [ none ↦ none | some st ↦ finish d process st ]) ≡ some opt
        → Consistent d opt
    read none g f = absurd (cc)
    read (some st) g f = subst (Holds (Consistent d)) f (finish-Consistent d process st g)
