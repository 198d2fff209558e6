-- ===== src/Cli/Parse/Spelling.antt =====
-- The two spellings of an option's value, `--name=value` and `--name value`.
use gentest.Base.{
  ℕ, ◌≡◌, refl, Bool, true, false, Option, none, some, List, ◌∷◌, ◌++◌, Bytes, bytes_eq,
  strip_prefix, codes,
}
use gentest.Cli.Host.{Doubles}
use gentest.Cli.Values.{
  OptionParseResult, no_match, consumed, error, with_value, parse_value_option,
}
use gentest.Cli.State.{Parsing}
use gentest.Cli.Arguments.{
  ◌or_else◌, unless, flag_option, seed_value_of, repeat_value_of, async_log_tail_value_of,
  run_value_of, filter_value_of, kind_value_of, time_unit_value_of, report_format_value_of,
  junit_value_of, allure_value_of, warmup_value_of, epochs_value_of, jitter_bins_value_of,
  min_epoch_value_of, min_total_value_of, max_total_value_of,
}
use gentest.Cli.Parse.{parse_argument, parse_arguments}

-- The options that take a value.
pub data ValueOption : Type 0 where
  seed repeat async_log_tail run filter kind time_unit report_format junit allure_dir : ValueOption
  bench_min_epoch_time bench_min_total_time bench_max_total_time : ValueOption
  bench_warmup bench_epochs jitter_bins : ValueOption

abbrev pub name : ValueOption → Bytes
name seed = codes "--seed"
name repeat = codes "--repeat"
name async_log_tail = codes "--async-log-tail"
name run = codes "--run"
name filter = codes "--filter"
name kind = codes "--kind"
name time_unit = codes "--time-unit"
name report_format = codes "--report-format"
name junit = codes "--junit"
name allure_dir = codes "--allure-dir"
name bench_min_epoch_time = codes "--bench-min-epoch-time-s"
name bench_min_total_time = codes "--bench-min-total-time-s"
name bench_max_total_time = codes "--bench-max-total-time-s"
name bench_warmup = codes "--bench-warmup"
name bench_epochs = codes "--bench-epochs"
name jitter_bins = codes "--jitter-bins"

-- Where a second occurrence is no longer looked for.
abbrev pub is_closed : {D : Type 0} → ValueOption → Parsing D → Bool
is_closed repeat st = st.seen.repeat
is_closed bench_min_epoch_time st = st.seen.bench_min_epoch_time
is_closed bench_min_total_time st = st.seen.bench_min_total_time
is_closed bench_max_total_time st = st.seen.bench_max_total_time
is_closed bench_warmup st = st.seen.bench_warmup
is_closed bench_epochs st = st.seen.bench_epochs
is_closed jitter_bins st = st.seen.jitter_bins
is_closed _ st = false

module _ (d : Doubles) where
  open d use {Double}

  -- What an option does with its value.
  abbrev pub set_value : ValueOption → Parsing Double → Bytes → Option (Parsing Double)
  set_value seed = seed_value_of
  set_value repeat = repeat_value_of
  set_value async_log_tail = async_log_tail_value_of
  set_value run = run_value_of
  set_value filter = filter_value_of
  set_value kind = kind_value_of
  set_value time_unit = time_unit_value_of
  set_value report_format = report_format_value_of
  set_value junit = junit_value_of
  set_value allure_dir = allure_value_of
  set_value bench_min_epoch_time = min_epoch_value_of d
  set_value bench_min_total_time = min_total_value_of d
  set_value bench_max_total_time = max_total_value_of d
  set_value bench_warmup = warmup_value_of
  set_value bench_epochs = epochs_value_of
  set_value jitter_bins = jitter_bins_value_of

  abbrev answer : Bool → Option (Parsing Double) → Bool → OptionParseResult (Parsing Double)
  answer true r skip = error
  answer false r skip = with_value r skip

  unless-no_match : (b : Bool) → unless {S = Parsing Double} b no_match ≡ no_match
  unless-no_match true = refl
  unless-no_match false = refl

  answer-or_else :
      (seen : Bool) (r : Option (Parsing Double)) (skip : Bool)
      → (unless seen (with_value r skip) or_else error) ≡ answer seen r skip
  answer-or_else true r skip = refl
  answer-or_else false none skip = refl
  answer-or_else false (some st) skip = refl

  with_value-or_else :
      (r : Option (Parsing Double)) (skip : Bool)
      → (with_value r skip or_else error) ≡ with_value r skip
  with_value-or_else none skip = refl
  with_value-or_else (some st) skip = refl

  ruleset attempts = (unless-no_match, answer-or_else, with_value-or_else)

  parse_argument-inline :
      (o : ValueOption) (c : ℕ) (v : Bytes) (more : List (Option Bytes)) (st : Parsing Double)
      → parse_argument d (name o ++ b'=' ∷ c ∷ v) more st
        ≡ answer (is_closed o st) (set_value o st (c ∷ v)) false
  unfolding parse_argument flag_option parse_value_option bytes_eq strip_prefix
  parse_argument-inline seed c v more st = simp attempts
  parse_argument-inline _ c v more st = simp attempts

  parse_argument-next :
      (o : ValueOption) (c : ℕ) (v : Bytes) (more : List (Option Bytes)) (st : Parsing Double)
      → parse_argument d (name o) (some (c ∷ v) ∷ more) st
        ≡ answer (is_closed o st) (set_value o st (c ∷ v)) true
  unfolding parse_argument flag_option parse_value_option bytes_eq strip_prefix
  parse_argument-next seed c v more st = simp attempts
  parse_argument-next _ c v more st = simp attempts

  -- The value of an option may stand behind a "=" or in the next argument: the rest of the command
  -- line is then read in the same way, or refused in both.
  pub parse_arguments_spelling :
      (o : ValueOption) (c : ℕ) (v : Bytes) (more : List (Option Bytes)) (st : Parsing Double)
      → parse_arguments d false (some (name o ++ b'=' ∷ c ∷ v) ∷ more) st
        ≡ parse_arguments d false (some (name o) ∷ some (c ∷ v) ∷ more) st
  unfolding parse_arguments
  parse_arguments_spelling o c v more st =
      rw (parse_argument-inline o c v more st, parse_argument-next o c v more st, parse_arguments)
        (go (is_closed o st) (set_value o st (c ∷ v)))
    where
      go :
          (seen : Bool) (r : Option (Parsing Double))
          → (elim (answer seen r false) [
            | consumed st' skip ↦ parse_arguments d skip more st'
            | no_match ↦ none
            | error ↦ none
          ])
            ≡ (elim (answer seen r true) [
              | consumed st' skip ↦ parse_arguments d skip (some (c ∷ v) ∷ more) st'
              | no_match ↦ none
              | error ↦ none
            ])
      go true r = refl
      go false none = refl
      go false (some st') = refl
