-- ===== src/Cli/State.antt =====
-- The local variables of `parse_cli`, src/runner_cli.cpp.
use gentest.Base.{ℕ, ◌^◌, ◌-◌, Bool, true, false, none}
use gentest.Options.{CliOptions, execute, all, auto, table}
use gentest.Cli.Host.{Doubles}

-- The `seen_` flags of the options that have one.
pub record Seen : Type 0 where
  pub repeat : Bool
  pub async_log_tail : Bool
  pub bench_min_epoch_time : Bool
  pub bench_min_total_time : Bool
  pub bench_max_total_time : Bool
  pub bench_warmup : Bool
  pub bench_epochs : Bool
  pub jitter_bins : Bool
  pub time_unit : Bool
  pub report_format : Bool

pub record Parsing (D : Type 0) : Type 0 where
  pub opt : CliOptions D
  pub wants_help : Bool
  pub wants_list_tests : Bool
  pub wants_list_meta : Bool
  pub wants_list_json : Bool
  pub wants_list_death : Bool
  pub wants_list_benches : Bool
  pub no_color_flag : Bool
  pub github_annotations_flag : Bool
  pub seen : Seen

abbrev pub size_max : ℕ
size_max = 2 ^ 64 - 1

abbrev pub int_max : ℕ
int_max = 2 ^ 31 - 1

-- `CliOptions opt{}`.
unfoldable pub default_options : (d : Doubles) → CliOptions d.Double
default_options d = record {
  mode = execute;
  kind = all;
  time_unit_mode = auto;
  measured_report_format = table;
  color_output = true;
  github_annotations = false;
  fail_fast = false;
  shuffle = false;
  repeat_n = 1;
  async_log_tail = 5;
  include_death = false;
  seed_provided = false;
  seed_value = 0;
  shuffle_seed = 0;
  run_exact = none;
  filter_pat = none;
  junit_path = none;
  allure_dir = none;
  bench_table = false;
  bench_cfg = record {
    min_epoch_time_s = d.default_min_epoch_time;
    min_total_time_s = d.default_min_total_time;
    max_total_time_s = d.default_max_total_time;
    warmup_epochs = 1;
    measure_epochs = 12;
  };
  jitter_bins = 10;
}

unfoldable pub initial : (d : Doubles) → Parsing d.Double
unfolding default_options
initial d = record {
  opt = default_options d;
  wants_help = false;
  wants_list_tests = false;
  wants_list_meta = false;
  wants_list_json = false;
  wants_list_death = false;
  wants_list_benches = false;
  no_color_flag = false;
  github_annotations_flag = false;
  seen = record {
    repeat = false;
    async_log_tail = false;
    bench_min_epoch_time = false;
    bench_min_total_time = false;
    bench_max_total_time = false;
    bench_warmup = false;
    bench_epochs = false;
    jitter_bins = false;
    time_unit = false;
    report_format = false;
  };
}
