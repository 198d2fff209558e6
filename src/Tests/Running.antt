-- ===== src/Tests/Running.antt =====
-- Runs of plans and finished invocations.
use gentest.Base.{
  ℕ, ◌+◌, ◌<◌, ◌≤◌, ◌≡◌, refl, ◌⊎◌, true, false, List, [], ◌∷◌, Perm, codes, bytes_eq, arith,
  length, map,
}
use gentest.Plan.Table.Upsert.{concat_map}
use gentest.Plan.Table.{empty_table, add_or_update}
use gentest.Plan.Build.{SuiteExecutionPlan, build_suite_execution_plan}
use gentest.Results.Finish.{finish_invoke_result}
use gentest.Results.Finish.Meaning.{Means, finish_invoke_result-meaning}
use gentest.Results.Execute.{execute_and_record, acquire_case_fixture}
use gentest.Results.Sync.{run_tests_sync, should_stop_after_failure}
use gentest.Results.Sync.Loops.{cases_at, plan_cases}
use gentest.Results.Sync.Outcomes.{
  IsAccounted, run_tests_sync-IsAccounted, run_tests_sync-fail_fast,
}
use gentest.Results.Sync.Report.{case_in, Reports, Happened, run_tests_sync-selected}
use gentest.Cases.{Case}
use gentest.Results.Model.{Outcome}
use gentest.Tests.Data.{
  four, fails, reversing, runtime, start, reporting, zero_counters, invocation,
}

abbrev plans : List SuiteExecutionPlan
plans =
    record { suite = codes "math"; free_like = 0 ∷ []; suite_groups = []; global_groups = [] }
    ∷ record { suite = codes "io"; free_like = 3 ∷ []; suite_groups = []; global_groups = [] }
    ∷ []

abbrev selected : List ℕ
selected = 0 ∷ 1 ∷ 2 ∷ 3 ∷ []

abbrev mixed : List SuiteExecutionPlan
mixed = build_suite_execution_plan reversing four selected true 9

run_tests_sync-selected_example :
    let r' = (run_tests_sync runtime four false mixed start).1 in
    (ran : List (Case × Outcome)) × Perm (map case_in ran) (cases_at four selected)
    × Happened runtime start.world ran r'.world
    × Reports ran r'
    × (r'.counters.total ≡ 0 + length ran)
run_tests_sync-selected_example =
    run_tests_sync-selected runtime four reversing selected true 9 start
      (omega arith, (omega arith, (omega arith, (omega arith, tt)))) (refl, 0, refl)

run_tests_sync-fail_fast_example :
    let (stopped, r') = run_tests_sync runtime four true plans start in
    let c = r'.counters in
    ((stopped ≡ true) × (c.failures ≤ 1) × (c.blocked ≤ 1) × (0 < c.failures + c.blocked))
    ⊎ ((stopped ≡ false)
        × (c.failures ≡ 0)
        × (c.blocked ≡ 0)
        × (c.total ≡ 0 + length (concat_map (plan_cases four) plans)))
run_tests_sync-fail_fast_example = run_tests_sync-fail_fast runtime four plans start refl refl

run_tests_sync-IsAccounted_example : IsAccounted 0 (run_tests_sync runtime four true plans start).1
run_tests_sync-IsAccounted_example =
    run_tests_sync-IsAccounted runtime four true plans 0 start
      ((refl, omega arith, omega arith, omega arith, omega arith), refl)

finish_invoke_result-meaning_example :
    let inv = invocation (codes "1 != 2" ∷ []) in
    Means inv (finish_invoke_result reporting fails inv zero_counters).result.outcome
finish_invoke_result-meaning_example =
    finish_invoke_result-meaning reporting fails (invocation (codes "1 != 2" ∷ [])) zero_counters

-- The run under --fail-fast stops at the failure of "math/fails", the second test.
fail_fast_stops : (run_tests_sync runtime four true mixed start).0 ≡ true
unfolding run_tests_sync build_suite_execution_plan empty_table should_stop_after_failure
    execute_and_record acquire_case_fixture add_or_update bytes_eq
fail_fast_stops = refl

fail_fast_count : (run_tests_sync runtime four true mixed start).1.counters.total ≡ 2
unfolding run_tests_sync build_suite_execution_plan empty_table should_stop_after_failure
    execute_and_record acquire_case_fixture add_or_update bytes_eq
fail_fast_count = refl
