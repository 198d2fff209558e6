-- ===== src/Results/Sync.antt =====
-- `run_tests_sync` of src/runner_test_executor.cpp: the plans are run in their order.
pub mod Loops
pub mod Outcomes
pub mod Report
use gentest.Base.{
  ℕ, Bool, true, false, ◌&&◌, ◌||◌, Option, none, some, List, [], ◌∷◌, Bytes, if◌then◌else◌, ltb,
  get_elem?,
}
use gentest.Cases.{Case}
use gentest.Plan.Build.{FixtureGroupPlan, SuiteExecutionPlan}
use gentest.Results.Model.{TestCounters}
use gentest.Results.Execute.{
  Runtime, Run, Acquired, unavailable, acquired, acquire_case_fixture, execute_and_record,
  record_synthetic_skip, shared_fixture_unavailable_message,
}

unfoldable pub should_stop_after_failure : Bool → TestCounters → Bool
should_stop_after_failure fail_fast counters =
    fail_fast && (ltb 0 counters.failures || ltb 0 counters.blocked)

-- A loop that runs `step` on each entry until it asks to stop.
abbrev pub until_stop {ℓ κ} : {A : Type ℓ} {S : Type κ} → (A → S → Bool × S) → List A → S → Bool × S
until_stop step [] r = (false, r)
until_stop step (x ∷ xs) r =
    let (stopped, r') = step x r in
    let rest = until_stop step xs r' in if stopped then (true, r') else rest

-- One thing after another, unless the first stopped.
abbrev pub and_then {κ} : {S : Type κ} → Bool × S → (S → Bool × S) → Bool × S
and_then (true, r) next = (true, r)
and_then (false, r) next = next r

-- `f(cases[i], …)`; an index out of range, which a plan never has, is passed over.
abbrev pub on_case {κ} : {S : Type κ} → (Case → S → S) → Option Case → S → S
on_case f none r = r
on_case f (some test) r = f test r

module _ {D W Ctx : Type 0} (rt : Runtime D W Ctx) (cases : List Case) (fail_fast : Bool) where
  -- The body of a loop over indices, `f(cases[i], …)` with the check that follows it.
  abbrev pub step_at : (Case → Run D W → Run D W) → ℕ → Run D W → Bool × Run D W
  step_at f i r =
      let r' = on_case f (get_elem? cases i) r in
      (should_stop_after_failure fail_fast r'.counters, r')

  abbrev pub execute_with : Option Ctx → Case → Run D W → Run D W
  execute_with ctx test = execute_and_record rt test ctx

  abbrev pub skip_with : Bytes → Case → Run D W → Run D W
  skip_with msg test = record_synthetic_skip rt test msg true

  unfoldable pub run_acquired : FixtureGroupPlan → Acquired Ctx × W → Run D W → Bool × Run D W
  unfolding shared_fixture_unavailable_message
  run_acquired group (unavailable reason, w) r =
      let msg = shared_fixture_unavailable_message group.fixture reason in
      until_stop (step_at (skip_with msg)) group.idxs (record r { world = w })
  run_acquired group (acquired ctx, w) r =
      until_stop (step_at (execute_with ctx)) group.idxs (record r { world = w })

  abbrev pub acquire_front : Option Case → W → Acquired Ctx × W
  acquire_front none w = (acquired none, w)
  acquire_front (some test) w = acquire_case_fixture rt test w

  abbrev pub front_case : List ℕ → Option Case
  front_case [] = none
  front_case (i ∷ idxs) = get_elem? cases i

  -- One round of the loop of `run_groups`.
  unfoldable pub run_group : FixtureGroupPlan → Run D W → Bool × Run D W
  unfolding run_acquired
  run_group group r = run_acquired group (acquire_front (front_case group.idxs) r.world) r

  unfoldable pub run_plan : SuiteExecutionPlan → Run D W → Bool × Run D W
  unfolding run_group
  run_plan plan r =
      let free = until_stop (step_at (execute_with none)) plan.free_like r in
      and_then (and_then free (until_stop run_group plan.suite_groups))
        (until_stop run_group plan.global_groups)

  unfoldable pub run_tests_sync : List SuiteExecutionPlan → Run D W → Bool × Run D W
  unfolding run_plan
  run_tests_sync = until_stop run_plan
