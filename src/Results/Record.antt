-- ===== src/Results/Record.antt =====
-- The accumulator of src/runner_reporting.cpp.
use mathlib.Core.Option
use gentest.Base.{ℕ, Bool, List, [], ◌∷◌, ◌++◌, Bytes, codes, if◌then◌else◌, is_empty}
use gentest.Cases.{Case}
use gentest.Results.Model.{RunResult, ReportItem, RunAccumulator, TestRunContext}

abbrev issues_or_default : List Bytes → List Bytes
issues_or_default [] = codes "failure (no details)" ∷ []
issues_or_default (i ∷ is) = i ∷ is

module _ {D : Type 0} where
  unfoldable pub record_failure_summary :
      RunAccumulator D → Bytes → List Bytes → Bytes → ℕ → RunAccumulator D
  record_failure_summary acc name issues file line = record acc {
    failure_items =
        acc.failure_items
        ++ record { name = name; file = file; line = line; issues = issues_or_default issues } ∷ [];
  }

  unfoldable pub record_runner_level_failure : RunAccumulator D → Bytes → Bytes → RunAccumulator D
  unfolding record_failure_summary
  record_runner_level_failure acc name message =
      let acc' = record_failure_summary acc name (message ∷ []) [] 0 in
      record acc' { infra_errors = acc'.infra_errors ++ message ∷ [] }

  abbrev pub report_item : Case → RunResult D → ReportItem D
  report_item test result = record {
    suite = test.suite;
    name = test.name;
    time_s = result.time_s;
    skipped = result.skipped;
    skip_reason = if is_empty result.skip_reason then test.skip_reason else result.skip_reason;
    outcome = result.outcome;
    failures = result.failures;
    logs = result.logs;
    timeline = result.timeline;
    tags = test.tags;
    requirements = test.requirements;
    attachments = result.attachments;
  }

  unfoldable pub record_case_result :
      RunAccumulator D → Case → RunResult D → Bool → RunAccumulator D
  unfolding record_failure_summary
  record_case_result acc test result include_report_item =
      let acc' =
        if is_empty result.summary_issues
        then acc
        else record_failure_summary acc test.name result.summary_issues test.file test.line in
      if include_report_item
      then record acc' { report_items = acc'.report_items ++ report_item test result ∷ [] }
      else acc'

  unfoldable pub add_error_annotation :
      RunAccumulator D → Bytes → ℕ → Bytes → Bytes → RunAccumulator D
  add_error_annotation acc file line title message = record acc {
    github_annotations =
        acc.github_annotations
        ++ record { file = file; line = line; title = title; message = message } ∷ [];
  }

  -- `if (state.acc) add_error_annotation(*state.acc, …)`.
  abbrev pub annotate : TestRunContext D → Bytes → ℕ → Bytes → Bytes → TestRunContext D
  annotate state file line title message = record state {
    acc = Option.map (λ acc. add_error_annotation acc file line title message) state.acc;
  }
