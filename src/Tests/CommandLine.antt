-- ===== src/Tests/CommandLine.antt =====
-- Command lines.
use gentest.Base.{
  ℕ, ◌≡◌, refl, ◌↔◌, false, some, List, Option, [], ◌∷◌, Bytes, codes, bytes_eq, strip_prefix,
}
use gentest.Options.{CliOptions}
use gentest.Cli.Decimal.{parse_u64_decimal_strict, ok, Reads, parse_u64_iff}
use gentest.Cli.Values.{parse_value_option, parse_u64_option}
use gentest.Cli.Arguments.{flag_option, repeat_value_of}
use gentest.Cli.State.{initial, default_options}
use gentest.Cli.Parse.{parse_argument, parse_arguments, parse_cli}
use gentest.Cli.Parse.Validity.{Consistent, parse_cli-Consistent}
use gentest.Cli.Parse.Spelling.{parse_arguments_spelling, repeat}
use gentest.Tests.Data.{whole, quiet}

parse_u64_iff_example :
    (parse_u64_decimal_strict (codes "42") ≡ record { value = 42; status = ok })
    ↔ Reads (codes "42") 42
parse_u64_iff_example = parse_u64_iff (codes "42") 42

abbrev repeats : List (Option Bytes)
repeats = some (codes "tests") ∷ some (codes "--repeat") ∷ some (codes "3") ∷ []

abbrev repeated : CliOptions ℕ
repeated = record (default_options whole) { repeat_n = 3; color_output = false }

parse_cli-Consistent_example : Consistent whole repeated
unfolding parse_cli default_options bytes_eq parse_argument flag_option parse_value_option
    strip_prefix repeat_value_of parse_u64_option parse_u64_decimal_strict
parse_cli-Consistent_example =
    parse_cli-Consistent whole quiet repeats repeated (refl, refl) (refl, refl) (refl, refl) refl

parse_arguments_spelling_example :
    parse_arguments whole false (some (codes "--repeat=3") ∷ []) (initial whole)
    ≡ parse_arguments whole false (some (codes "--repeat") ∷ some (codes "3") ∷ []) (initial whole)
parse_arguments_spelling_example = parse_arguments_spelling whole repeat b'3' [] [] (initial whole)
