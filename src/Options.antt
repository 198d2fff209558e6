-- ===== src/Options.antt =====
-- src/runner_cli.h: the options of a run. `D` stands for `double`.
use gentest.Base.{ℕ, Bool, Bytes, Option}

pub data Mode : Type 0 where
  execute help list_tests list_meta list_json list_death list_benches : Mode

pub data KindFilter : Type 0 where
  all test bench jitter : KindFilter

pub data TimeUnitMode : Type 0 where
  auto ns : TimeUnitMode

pub data MeasuredReportFormat : Type 0 where
  table markdown csv json : MeasuredReportFormat

pub record BenchConfig (D : Type 0) : Type 0 where
  pub min_epoch_time_s : D
  pub min_total_time_s : D
  pub max_total_time_s : D
  pub warmup_epochs : ℕ
  pub measure_epochs : ℕ

-- A `const char *` that may be null is an `Option`.
pub record CliOptions (D : Type 0) : Type 0 where
  pub mode : Mode
  pub kind : KindFilter
  pub time_unit_mode : TimeUnitMode
  pub measured_report_format : MeasuredReportFormat
  pub color_output : Bool
  pub github_annotations : Bool
  pub fail_fast : Bool
  pub shuffle : Bool
  pub repeat_n : ℕ
  pub async_log_tail : ℕ
  pub include_death : Bool
  pub seed_provided : Bool
  pub seed_value : ℕ
  pub shuffle_seed : ℕ
  pub run_exact : Option Bytes
  pub filter_pat : Option Bytes
  pub junit_path : Option Bytes
  pub allure_dir : Option Bytes
  pub bench_table : Bool
  pub bench_cfg : BenchConfig D
  pub jitter_bins : ℕ
