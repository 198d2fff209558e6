-- ===== src/Tests/Planning.antt =====
-- Plans.
use gentest.Base.{ℕ, List, [], ◌∷◌, Perm, All, arith, true, false}
use gentest.Plan.Table.Upsert.{concat_map, Distinct}
use gentest.Plan.Build.{build_suite_execution_plan}
use gentest.Plan.Order.{
  plan_idxs, plan_suite_of, SamePlans, IsGroupedPlan, build_suite_execution_plan-perm,
  build_suite_execution_plan-IsGroupedPlan, build_suite_execution_plan-SamePlans,
}
use gentest.Tests.Data.{four, reversing}

abbrev picked : List ℕ
picked = 2 ∷ 0 ∷ 1 ∷ []

build_suite_execution_plan-perm_example :
    Perm (concat_map plan_idxs (build_suite_execution_plan reversing four picked true 9)) picked
build_suite_execution_plan-perm_example =
    build_suite_execution_plan-perm reversing four picked true 9
      (omega arith, (omega arith, (omega arith, tt)))

build_suite_execution_plan-IsGroupedPlan_example :
    Distinct plan_suite_of (build_suite_execution_plan reversing four picked false 9)
    × All (IsGroupedPlan four) (build_suite_execution_plan reversing four picked false 9)
build_suite_execution_plan-IsGroupedPlan_example =
    build_suite_execution_plan-IsGroupedPlan reversing four picked 9
      (omega arith, (omega arith, (omega arith, tt)))

build_suite_execution_plan-SamePlans_example :
    SamePlans
      (build_suite_execution_plan reversing four picked true 9)
      (build_suite_execution_plan reversing four picked false 9)
build_suite_execution_plan-SamePlans_example =
    build_suite_execution_plan-SamePlans reversing four picked 9
