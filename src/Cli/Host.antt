-- ===== src/Cli/Host.antt =====
-- What src/runner_cli.cpp takes from outside the repository: `double` with std::stod, and the
-- process it runs in.
use gentest.Base.{ℕ, Bool, Bytes, Option}

-- `stod` returns the number and the count of bytes read, or nothing where std::stod throws.
pub record Doubles : Type 1 where
  pub Double : Type 0
  pub stod : Bytes → Option (Double × ℕ)
  pub is_finite : Double → Bool
  pub is_negative : Double → Bool
  pub is_positive : Double → Bool
  pub greater : Double → Double → Bool
  -- The default times of the benchmarks: 0.01, 0.0 and 1.0.
  pub default_min_epoch_time : Double
  pub default_min_total_time : Double
  pub default_max_total_time : Double

-- getenv (an unset variable is the empty text), isatty, and two numbers of std::random_device.
pub record Process : Type 0 where
  pub env_value : Bytes → Bytes
  pub stdout_is_tty : Bool
  pub random_high : ℕ
  pub random_low : ℕ
