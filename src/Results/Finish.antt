-- ===== src/Results/Finish.antt =====
-- `finish_invoke_result` of src/runner_case_result.cpp and the functions around it. What is printed is
-- left out; each function returns the result, the counters and the context with its accumulator.
pub mod Verdict
pub mod Meaning
use mathlib.Core.Option
use gentest.Base.{
  ℕ, zero, suc, ◌+◌, Bool, true, false, not, ◌&&◌, ◌||◌, List, [], ◌∷◌, ◌++◌, Bytes, codes, ◌==◌,
  ltb, if◌then◌else◌, is_empty, Option, none, some,
}
use gentest.Cases.{Case}
use gentest.Results.Model.{
  Outcome, RunResult, InvokeException, RuntimeSkipKind, user, shared_fixture_infra, FailureLoc,
  TestContextInfo, InvokeResult, TestCounters, TestRunContext, RunAccumulator,
}
use gentest.Results.Record.{record_case_result, add_error_annotation, annotate}

pub record Finished (D : Type 0) : Type 0 where
  pub result : RunResult D
  pub counters : TestCounters
  pub state : TestRunContext D

-- An event line without a kind is a log line, 'L'.
abbrev pub kind_at : List ℕ → ℕ
kind_at [] = b'L'
kind_at (k ∷ kinds) = k

abbrev pub kinds_after : List ℕ → List ℕ
kinds_after [] = []
kinds_after (k ∷ kinds) = kinds

unfoldable pub collect_pass_visible_timeline : List Bytes → List ℕ → List Bytes
collect_pass_visible_timeline [] kinds = []
collect_pass_visible_timeline (line ∷ lines) kinds =
    let rest = collect_pass_visible_timeline lines (kinds_after kinds) in
    if kind_at kinds == b'A' then line ∷ rest else rest

abbrev pub or_default : Bytes → Bytes → Bytes
or_default text default = if is_empty text then default else text

-- `text.empty() ? bare : fmt::format("<prefix>{}", text)`.
abbrev pub prefixed : Bytes → Bytes → Bytes → Bytes
prefixed prefix bare text = if is_empty text then bare else prefix ++ text

unfoldable pub is_skip : InvokeException → Bool
is_skip InvokeException.skip = true
is_skip _ = false

unfoldable pub is_blocked : InvokeException → Bool
is_blocked InvokeException.blocked = true
is_blocked _ = false

unfoldable pub threw_non_skip : InvokeException → Bool
threw_non_skip InvokeException.no_exception = false
threw_non_skip InvokeException.skip = false
threw_non_skip InvokeException.blocked = false
threw_non_skip _ = true

-- The place of a failure: its own, if it has one, and else that of the test.
abbrev pub located : Case → List FailureLoc → Bytes × ℕ
located test [] = (test.file, test.line)
located test (loc ∷ locs) =
    if not (is_empty loc.file) && ltb 0 loc.line
    then (loc.file, loc.line)
    else (test.file, test.line)

abbrev pub locs_after : List FailureLoc → List FailureLoc
locs_after [] = []
locs_after (loc ∷ locs) = locs

abbrev pub lines_or_first : List Bytes → List Bytes → List Bytes
lines_or_first [] [] = []
lines_or_first [] (first ∷ failures) = first ∷ []
lines_or_first (line ∷ lines) failures = line ∷ lines

module _ {D : Type 0} where
  -- A fresh result, with the time, the logs and the timeline of the run.
  abbrev started : InvokeResult D → RunResult D
  started inv = record {
    time_s = inv.elapsed_s;
    skipped = false;
    outcome = Outcome.pass;
    skip_reason = [];
    xfail_reason = [];
    failures = [];
    summary_issues = [];
    logs = inv.ctxinfo.logs;
    timeline = inv.ctxinfo.event_lines;
    attachments = [];
  }

  unfoldable pub finish_blocked :
      TestRunContext D → Case → InvokeResult D → TestCounters → Finished D
  finish_blocked state test inv c =
      let reason = or_default inv.message (codes "async test cannot resume") in
      let issue = codes "BLOCKED: " ++ reason in
      record {
        result = record (started inv) {
          skipped = true;
          outcome = Outcome.blocked;
          skip_reason = reason;
          summary_issues = issue ∷ [];
        };
        counters = record c { blocked = c.blocked + 1; failures = c.failures + 1 };
        state = annotate state test.file test.line test.name issue;
      }

  unfoldable pub finish_skip :
      RuntimeSkipKind → TestRunContext D → InvokeResult D → TestCounters → Finished D
  finish_skip shared_fixture_infra state inv c =
      let issue = or_default inv.ctxinfo.runtime_skip_reason (codes "shared fixture unavailable") in
      record {
        result = record (started inv) {
          skipped = true;
          outcome = Outcome.blocked;
          skip_reason = codes "blocked: " ++ issue;
        };
        counters = record c { blocked = c.blocked + 1 };
        state = state;
      }
  finish_skip user state inv c = record {
    result = record (started inv) {
      skipped = true;
      outcome = Outcome.skip;
      skip_reason = inv.ctxinfo.runtime_skip_reason;
    };
    counters = record c { skipped = c.skipped + 1 };
    state = state;
  }

  unfoldable pub finish_xfail : TestRunContext D → InvokeResult D → TestCounters → Finished D
  finish_xfail state inv c =
      let reason = inv.ctxinfo.xfail_reason in
      record {
        result = record (started inv) {
          skipped = true;
          outcome = Outcome.xfail;
          skip_reason = prefixed (codes "xfail: ") (codes "xfail") reason;
          xfail_reason = reason;
        };
        counters = record c { xfail = c.xfail + 1; skipped = c.skipped + 1 };
        state = state;
      }

  unfoldable pub finish_xpass : TestRunContext D → Case → InvokeResult D → TestCounters → Finished D
  finish_xpass state test inv c =
      let reason = inv.ctxinfo.xfail_reason in
      let failure = prefixed (codes "xpass: ") (codes "xpass") reason in
      record {
        result = record (started inv) {
          outcome = Outcome.xpass;
          xfail_reason = reason;
          failures = failure ∷ [];
          summary_issues = prefixed (codes "XPASS: ") (codes "XPASS") reason ∷ [];
        };
        counters = record c {
          xpass = c.xpass + 1;
          failed = c.failed + 1;
          failures = c.failures + 1;
        };
        state = annotate state test.file test.line test.name failure;
      }

  -- The loop over the events of a failed test: the failure lines, and an annotation for each.
  unfoldable pub failure_events :
      Case
      → List Bytes
      → List ℕ
      → List FailureLoc
      → TestRunContext D
      → List Bytes × TestRunContext D
  failure_events test [] kinds locs state = ([], state)
  failure_events test (line ∷ lines) kinds locs state =
      let place = located test locs in
      let marked = annotate state place.0 place.1 test.name line in
      let noted = failure_events test lines (kinds_after kinds) (locs_after locs) marked in
      let silent = failure_events test lines (kinds_after kinds) locs state in
      if kind_at kinds == b'F' then (line ∷ noted.0, noted.1) else silent

  unfoldable pub finish_failed :
      TestRunContext D → Case → InvokeResult D → TestCounters → Finished D
  unfolding failure_events
  finish_failed state test inv c =
      let info = inv.ctxinfo in
      let (failure_lines, state') =
        failure_events test info.event_lines info.event_kinds info.failure_locations state in
      record {
        result = record (started inv) {
          outcome = Outcome.fail;
          failures = info.failures;
          summary_issues = lines_or_first failure_lines info.failures;
        };
        counters = record c { failed = c.failed + 1; failures = c.failures + 1 };
        state = state';
      }

  unfoldable pub finish_passed : TestRunContext D → InvokeResult D → TestCounters → Finished D
  unfolding collect_pass_visible_timeline
  finish_passed state inv c = record {
    result = record (started inv) {
      timeline = collect_pass_visible_timeline inv.ctxinfo.event_lines inv.ctxinfo.event_kinds;
    };
    counters = record c { passed = c.passed + 1 };
    state = state;
  }

  unfoldable pub finish_fatal : TestRunContext D → Case → InvokeResult D → TestCounters → Finished D
  finish_fatal state test inv c =
      let issue = or_default inv.message (codes "fatal assertion or exception (no message)") in
      record {
        result = record (started inv) {
          outcome = Outcome.fail;
          failures = issue ∷ [];
          summary_issues = issue ∷ [];
        };
        counters = record c { failed = c.failed + 1; failures = c.failures + 1 };
        state = annotate state test.file test.line test.name issue;
      }

  unfoldable pub finish_invoke_result :
      TestRunContext D → Case → InvokeResult D → TestCounters → Finished D
  unfolding is_skip is_blocked threw_non_skip finish_blocked finish_skip finish_xfail finish_xpass
      finish_failed finish_passed finish_fatal
  finish_invoke_result state test inv c =
      let info = inv.ctxinfo in
      let has_failures = not (is_empty info.failures) in
      let threw = threw_non_skip inv.exception in
      let should_skip = is_skip inv.exception && info.runtime_skip_requested in
      if is_blocked inv.exception && not has_failures
      then finish_blocked state test inv c
      else if should_skip && not has_failures && not threw
      then finish_skip info.runtime_skip_kind state inv c
      else if info.xfail_requested && not should_skip
      then if has_failures || threw then finish_xfail state inv c else finish_xpass state test inv c
      else if has_failures
      then finish_failed state test inv c
      else if not threw
      then finish_passed state inv c
      else finish_fatal state test inv c
