-- ===== src/Plan/Order.antt =====
-- The finished plans: what shuffling may change, and what the plans hold.
use mathlib.Core.List.Perm
use mathlib.Core.List.{append-nil}
use gentest.Base.{
  ℕ, ◌≡◌, refl, ◌≢◌, Bytes, Bool, true, false, List, [], ◌∷◌, ◌++◌, map, Perm, leb, length,
  Bool-cases, inl, inr, All,
}
use gentest.Cases.{Case, member_suite, member_global}
use gentest.Plan.Table.{empty_table}
use gentest.Plan.Table.Upsert.{concat_map, Distinct}
use gentest.Plan.Build.{
  FixtureGroupPlan, SuiteExecutionPlan, SuitePlanBuilder, Shuffling, shuffle_with_seed,
  shuffle_groups, finish_plan, build_suite_execution_plan,
}
use gentest.Plan.Build.Grouping.{builder_idxs, group_idxs, Of, IsFree, Fits, IsGrouped}
use gentest.Plan.Build.Suites.{suite_of, InRange, add_cases-IsPlanned, empty-IsPlanned}

-- All indices of a plan.
abbrev pub plan_idxs : SuiteExecutionPlan → List ℕ
plan_idxs p = p.free_like ++ (group_idxs p.suite_groups ++ group_idxs p.global_groups)

abbrev pub plan_suite_of : SuiteExecutionPlan → Bytes
plan_suite_of p = p.suite

module _ (s : Shuffling) where
  shuffle_with_seed-perm : (order : List ℕ) (seed : ℕ) → Perm (shuffle_with_seed s order seed) order
  unfolding shuffle_with_seed
  shuffle_with_seed-perm order seed = elim (Bool-cases (leb (length order) 1)) [
    | inl e ↦ rw e (Perm.refl order)
    | inr e ↦ rw e (s.shuffle-perm seed order)
  ]

  shuffle_groups-perm :
      (seed : ℕ) (groups : List FixtureGroupPlan)
      → Perm (group_idxs (shuffle_groups s seed groups)) (group_idxs groups)
  shuffle_groups-perm seed [] = Perm.nil
  shuffle_groups-perm seed (g ∷ groups) =
      Perm.append (shuffle_with_seed-perm g.idxs _) (shuffle_groups-perm seed groups)

  finish_plan-perm :
      (do_shuffle : Bool) (seed : ℕ) (b : SuitePlanBuilder)
      → Perm (plan_idxs (finish_plan s do_shuffle seed b)) (builder_idxs b)
  unfolding finish_plan
  finish_plan-perm true seed b = Perm.append (shuffle_with_seed-perm b.free_like _) (
      Perm.append (shuffle_groups-perm _ b.suite_groups.entries)
        (shuffle_groups-perm _ b.global_groups.entries))
  finish_plan-perm false seed b = Perm.refl _

  finish_plans-perm :
      (do_shuffle : Bool) (seed : ℕ) (bs : List SuitePlanBuilder)
      → Perm
          (concat_map plan_idxs (map (finish_plan s do_shuffle seed) bs))
          (concat_map builder_idxs bs)
  finish_plans-perm do_shuffle seed [] = Perm.nil
  finish_plans-perm do_shuffle seed (b ∷ bs) =
      Perm.append (finish_plan-perm do_shuffle seed b) (finish_plans-perm do_shuffle seed bs)

  -- Whether the run shuffles or not, the plans of indices in range hold every selected index exactly
  -- as often as it was selected, and nothing else.
  pub build_suite_execution_plan-perm :
      (cases : List Case) (idxs : List ℕ) (do_shuffle : Bool) (seed : ℕ)
      → InRange cases idxs
      → Perm (concat_map plan_idxs (build_suite_execution_plan s cases idxs do_shuffle seed)) idxs
  unfolding build_suite_execution_plan empty_table
  build_suite_execution_plan-perm cases idxs do_shuffle seed h =
      Perm.trans (finish_plans-perm do_shuffle seed _)
        (rw append-nil at (add_cases-IsPlanned cases idxs empty_table h (empty-IsPlanned cases)).1)

-- What the lists of a plan hold.
pub record IsGroupedPlan (cases : List Case) (p : SuiteExecutionPlan) : Type 0 where
  pub free : All (Of cases p.suite (λ t. IsFree t.fixture_lifetime)) p.free_like
  pub suites : All (Fits cases p.suite member_suite) p.suite_groups
  pub globals : All (Fits cases p.suite member_global) p.global_groups
  pub suite_names : Distinct (λ g. g.fixture) p.suite_groups
  pub global_names : Distinct (λ g. g.fixture) p.global_groups

abbrev pub SameGroups : List FixtureGroupPlan → List FixtureGroupPlan → Type 0
SameGroups [] [] = Unit {0}
SameGroups (g ∷ gs) (h ∷ hs) =
    (g.fixture ≡ h.fixture)
    × (g.fixture_lifetime ≡ h.fixture_lifetime)
    × Perm g.idxs h.idxs
    × SameGroups gs hs
SameGroups _ _ = ⊥

-- The same suite and groups in the same order, each with the same indices in any order.
abbrev pub SamePlans : List SuiteExecutionPlan → List SuiteExecutionPlan → Type 0
SamePlans [] [] = Unit {0}
SamePlans (p ∷ ps) (q ∷ qs) =
    (p.suite ≡ q.suite)
    × Perm p.free_like q.free_like
    × SameGroups p.suite_groups q.suite_groups
    × SameGroups p.global_groups q.global_groups
    × SamePlans ps qs
SamePlans _ _ = ⊥

module _ (s : Shuffling) where
  finish_plans-IsGroupedPlan :
      (cases : List Case) (seed : ℕ) (bs : List SuitePlanBuilder)
      → All (IsGrouped cases) bs
      → All (IsGroupedPlan cases) (map (finish_plan s false seed) bs)
  unfolding finish_plan
  finish_plans-IsGroupedPlan cases seed [] h = tt
  finish_plans-IsGroupedPlan cases seed (b ∷ bs) (g, h) = (
    record {
      free = g.free;
      suites = g.suites;
      globals = g.globals;
      suite_names = g.suite_names;
      global_names = g.global_names;
    },
    finish_plans-IsGroupedPlan cases seed bs h,
  )

  finish_plans-Distinct :
      (seed : ℕ) (bs : List SuitePlanBuilder)
      → Distinct suite_of bs
      → Distinct plan_suite_of (map (finish_plan s false seed) bs)
  unfolding finish_plan
  finish_plans-Distinct seed [] h = tt
  finish_plans-Distinct seed (b ∷ bs) h = (others bs h.0, finish_plans-Distinct seed bs h.1)
    where
      others :
          (bs : List SuitePlanBuilder)
          → All (λ x. x.suite ≢ b.suite) bs
          → All (λ x. x.suite ≢ b.suite) (map (finish_plan s false seed) bs)
      others [] h = tt
      others (x ∷ bs) h = (h.0, others bs h.1)

  -- For indices in range, a run that does not shuffle has one plan for each suite; the free list of a plan holds cases of
  -- its suite with no shared fixture, and its groups hold cases of its suite and of their own fixture
  -- and lifetime, with one group for each fixture.
  pub build_suite_execution_plan-IsGroupedPlan :
      (cases : List Case) (idxs : List ℕ) (seed : ℕ)
      → InRange cases idxs
      → Distinct plan_suite_of (build_suite_execution_plan s cases idxs false seed)
        × All (IsGroupedPlan cases) (build_suite_execution_plan s cases idxs false seed)
  unfolding build_suite_execution_plan
  build_suite_execution_plan-IsGroupedPlan cases idxs seed h =
      let v = (add_cases-IsPlanned cases idxs empty_table h (empty-IsPlanned cases)).0 in
      (finish_plans-Distinct seed _ v.names, finish_plans-IsGroupedPlan cases seed _ v.grouped)

  shuffle_groups-SameGroups :
      (seed : ℕ) (groups : List FixtureGroupPlan) → SameGroups (shuffle_groups s seed groups) groups
  shuffle_groups-SameGroups seed [] = tt
  shuffle_groups-SameGroups seed (g ∷ groups) =
      (refl, refl, shuffle_with_seed-perm s g.idxs _, shuffle_groups-SameGroups seed groups)

  finish_plans-SamePlans :
      (seed : ℕ) (bs : List SuitePlanBuilder)
      → SamePlans (map (finish_plan s true seed) bs) (map (finish_plan s false seed) bs)
  unfolding finish_plan
  finish_plans-SamePlans seed [] = tt
  finish_plans-SamePlans seed (b ∷ bs) = (
    refl,
    shuffle_with_seed-perm s b.free_like _,
    shuffle_groups-SameGroups _ b.suite_groups.entries,
    shuffle_groups-SameGroups _ b.global_groups.entries,
    finish_plans-SamePlans seed bs,
  )

  -- Shuffling keeps the suites, the groups and their order, and moves cases only within the free list
  -- of a suite and within a group.
  pub build_suite_execution_plan-SamePlans :
      (cases : List Case) (idxs : List ℕ) (seed : ℕ)
      → SamePlans
          (build_suite_execution_plan s cases idxs true seed)
          (build_suite_execution_plan s cases idxs false seed)
  unfolding build_suite_execution_plan
  build_suite_execution_plan-SamePlans cases idxs seed = finish_plans-SamePlans seed _
