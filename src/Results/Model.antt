-- ===== src/Results/Model.antt =====
-- src/runner_result_model.h, src/runner_reporting.h, src/runner_case_invoker.h,
-- src/runner_test_executor.h and the part of include/gentest/detail/runtime_context.h that a result
-- is read from. `D` stands for `double`.
use gentest.Base.{ℕ, Bool, List, Bytes, Option}

pub data Outcome : Type 0 where
  pass fail skip blocked xfail xpass : Outcome

pub record ReportAttachment : Type 0 where
  pub name : Bytes
  pub mime_type : Bytes
  pub file_extension : Bytes
  pub contents : Bytes

pub record RunResult (D : Type 0) : Type 0 where
  pub time_s : D
  pub skipped : Bool
  pub outcome : Outcome
  pub skip_reason : Bytes
  pub xfail_reason : Bytes
  pub failures : List Bytes
  pub summary_issues : List Bytes
  pub logs : List Bytes
  pub timeline : List Bytes
  pub attachments : List ReportAttachment

pub record ReportItem (D : Type 0) : Type 0 where
  pub suite : Bytes
  pub name : Bytes
  pub time_s : D
  pub skipped : Bool
  pub skip_reason : Bytes
  pub outcome : Outcome
  pub failures : List Bytes
  pub logs : List Bytes
  pub timeline : List Bytes
  pub tags : List Bytes
  pub requirements : List Bytes
  pub attachments : List ReportAttachment

pub record FailureSummary : Type 0 where
  pub name : Bytes
  pub file : Bytes
  pub line : ℕ
  pub issues : List Bytes

pub record GitHubAnnotation : Type 0 where
  pub file : Bytes
  pub line : ℕ
  pub title : Bytes
  pub message : Bytes

pub record RunAccumulator (D : Type 0) : Type 0 where
  pub report_items : List (ReportItem D)
  pub failure_items : List FailureSummary
  pub infra_errors : List Bytes
  pub github_annotations : List GitHubAnnotation

pub data InvokeException : Type 0 where
  no_exception skip blocked assertion failure std_exception unknown : InvokeException

pub data RuntimeSkipKind : Type 0 where
  user shared_fixture_infra : RuntimeSkipKind

pub record FailureLoc : Type 0 where
  pub file : Bytes
  pub line : ℕ

pub record TestContextInfo : Type 0 where
  pub failures : List Bytes
  pub failure_locations : List FailureLoc
  pub logs : List Bytes
  pub event_lines : List Bytes
  pub event_kinds : List ℕ
  pub runtime_skip_requested : Bool
  pub runtime_skip_reason : Bytes
  pub runtime_skip_kind : RuntimeSkipKind
  pub xfail_requested : Bool
  pub xfail_reason : Bytes

pub record InvokeResult (D : Type 0) : Type 0 where
  pub ctxinfo : TestContextInfo
  pub exception : InvokeException
  pub elapsed_s : D
  pub message : Bytes

-- The C++ member `failures` is an `int`; the model does not bound it.
pub record TestCounters : Type 0 where
  pub total : ℕ
  pub passed : ℕ
  pub skipped : ℕ
  pub blocked : ℕ
  pub xfail : ℕ
  pub xpass : ℕ
  pub failed : ℕ
  pub failures : ℕ

-- The accumulator that a TestRunContext points to, if any, and whether report items are kept.
pub record TestRunContext (D : Type 0) : Type 0 where
  pub record_results : Bool
  pub acc : Option (RunAccumulator D)
