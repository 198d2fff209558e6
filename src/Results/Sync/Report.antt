-- ===== src/Results/Sync/Report.antt =====
-- What `run_tests_sync` reports of the cases of a plan when it does not stop early.
use mathlib.Core.Option
use mathlib.Core.List
use mathlib.Core.List.Perm
use mathlib.Core.List.{append_assoc, map-append}
use gentest.Base.{
  ℕ, suc, ◌+◌, ◌≡◌, refl, sym, ap, subst, map, ◌∙◌, inl, inr, Bool, true, false, some, List, [],
  ◌∷◌, ◌++◌, Perm, Bytes, arith, length, length-append, Option-cases, get_elem?,
}
use gentest.Cases.{Case}
use gentest.Plan.Table.Upsert.{concat_map}
use gentest.Plan.Build.{FixtureGroupPlan, SuiteExecutionPlan, Shuffling, build_suite_execution_plan}
use gentest.Plan.Build.Grouping.{group_idxs}
use gentest.Plan.Build.Suites.{InRange}
use gentest.Plan.Order.{plan_idxs, build_suite_execution_plan-perm}
use gentest.Results.Execute.{Runtime, Run, acquire_case_fixture}
use gentest.Results.Model.{Outcome}
use gentest.Results.Execute.Effect.{Effect, recorded, one_more}
use gentest.Results.Execute.Ran.{Ran}
use gentest.Results.Sync.{run_tests_sync, should_stop_after_failure}
use gentest.Results.Sync.Loops.{run_tests_sync-Ends, cases_at, group_cases, plan_cases}
use gentest.Results.Sync.Outcomes.{Effect-IsNext}

reports_one_more :
    {A : Type 0} (issues : List Bytes) (n : ℕ) (items : List A) (item : A)
    → (m : ℕ) × (one_more issues true item (n, items) ≡ (m, items ++ item ∷ []))
reports_one_more [] n items item = (n, refl)
reports_one_more (i ∷ is) n items item = (n + 1, refl)

length-map : {A B : Type 0} (f : A → B) (xs : List A) → length (map f xs) ≡ length xs
length-map f [] = refl
length-map f (x ∷ xs) = ap suc (length-map f xs)

-- What the report keeps of a case that had this outcome.
abbrev pub reported : Case × Outcome → Bytes × Outcome
reported (test, outcome) = (test.name, outcome)

abbrev pub case_in : Case × Outcome → Case
case_in (test, outcome) = test

-- The report holds items of these cases and outcomes, in this order, and more items are recorded.
abbrev pub Reports : {D W : Type 0} → List (Case × Outcome) → Run D W → Type 0
Reports ran r =
    (r.state.record_results ≡ true) × (n : ℕ) × (recorded r.state.acc ≡ some (n, map reported ran))

module _ {D W Ctx : Type 0} (rt : Runtime D W Ctx) where
  Effect-Reports :
      (test : Case) (r r' : Run D W) (ran : List (Case × Outcome)) (e : Effect rt test r r')
      → Reports ran r
      → Reports (ran ++ (test, e.outcome) ∷ []) r'
  Effect-Reports test r r' ran e (keep, n, at) =
      let item : Bytes × Outcome = (test.name, e.outcome) in
      let one = reports_one_more e.issues n (map reported ran) item in
      (
        e.setting ∙ keep,
        one.0,
        e.noted
            ∙ ap (λ k. Option.map (one_more e.issues k item) (recorded r.state.acc)) keep
            ∙ ap (Option.map (one_more e.issues true item)) at
            ∙ ap some (one.1 ∙ ap (λ items. (one.0, items)) (sym (map-append reported ran _))),
      )

  -- What happened between two states of the process, where these cases ended with these outcomes, one
  -- after the other: between two of them, fixtures may be asked for.
  pub data Happened (start : W) : List (Case × Outcome) → W → Type 0 where
    nothing : Happened start [] start
    asks :
        (ran : List (Case × Outcome)) (w : W) (front : Case)
        → Happened start ran w
        → Happened start ran (acquire_case_fixture rt front w).1
    then :
        (ran : List (Case × Outcome)) (w w' : W) (test : Case) (outcome : Outcome)
        → Happened start ran w
        → Ran rt test outcome w w'
        → Happened start (ran ++ (test, outcome) ∷ []) w'

cases_at-append :
    (cases : List Case) (xs ys : List ℕ)
    → cases_at cases (xs ++ ys) ≡ cases_at cases xs ++ cases_at cases ys
cases_at-append cases [] ys = refl
cases_at-append cases (x ∷ xs) ys = rw (cases_at-append cases xs ys, append_assoc)

group_idxs-cases :
    (cases : List Case) (groups : List FixtureGroupPlan)
    → cases_at cases (group_idxs groups) ≡ group_cases cases groups
group_idxs-cases cases [] = refl
group_idxs-cases cases (g ∷ groups) =
    rw (cases_at-append cases g.idxs (group_idxs groups), group_idxs-cases cases groups)

plan_idxs-cases :
    (cases : List Case) (plans : List SuiteExecutionPlan)
    → cases_at cases (concat_map plan_idxs plans) ≡ concat_map (plan_cases cases) plans
plan_idxs-cases cases [] = refl
plan_idxs-cases cases (p ∷ plans) =
    rw
      (
        cases_at-append cases (plan_idxs p) (concat_map plan_idxs plans),
        plan_idxs-cases cases plans,
        cases_at-append cases p.free_like (group_idxs p.suite_groups ++ group_idxs p.global_groups),
        cases_at-append cases (group_idxs p.suite_groups) (group_idxs p.global_groups),
        group_idxs-cases cases p.suite_groups,
        group_idxs-cases cases p.global_groups,
        append_assoc (cases_at cases p.free_like) (group_cases cases p.suite_groups)
            (group_cases cases p.global_groups),
      )
      refl

cases_at-filter_map :
    (cases : List Case) (xs : List ℕ) → cases_at cases xs ≡ List.filter_map (get_elem? cases) xs
unfolding List.filter_map
cases_at-filter_map cases [] = refl
cases_at-filter_map cases (x ∷ xs) = elim (Option-cases (get_elem? cases x)) [
  | inl e ↦ rw (e, cases_at-filter_map cases xs)
  | inr (t, e) ↦ rw (e, cases_at-filter_map cases xs)
]

cases_at-perm :
    (cases : List Case) (xs ys : List ℕ) → Perm xs ys → Perm (cases_at cases xs) (cases_at cases ys)
cases_at-perm cases xs ys p =
    rw (cases_at-filter_map cases xs, cases_at-filter_map cases ys)
      (Perm.filter_map (get_elem? cases) p)

module _ {D W Ctx : Type 0} (rt : Runtime D W Ctx) (cases : List Case) where
  -- A run from `r` to `r'` in which these cases ended, and were counted and reported.
  abbrev pub RanAll : Run D W → List Case → Run D W → Type 0
  RanAll r cs r' =
      (ran : List (Case × Outcome)) × (map case_in ran ≡ cs)
      × Happened rt r.world ran r'.world
      × Reports ran r'
      × (r'.counters.total ≡ r.counters.total + length cs)

  Effect-RanAll :
      (r s s' : Run D W) (test : Case) (cs : List Case)
      → Effect rt test s s'
      → RanAll r cs s
      → RanAll r (cs ++ test ∷ []) s'
  Effect-RanAll r s s' test cs e (ran, q, h, p, t) =
      let l = length-append cs (test ∷ []) in
      let k = (Effect-IsNext rt test s s' e).1 in
      (
        ran ++ (test, e.outcome) ∷ [],
        map-append case_in ran _ ∙ ap (λ xs. xs ++ test ∷ []) q,
        Happened.then ran s.world s'.world test e.outcome h e.ran,
        Effect-Reports rt test s s' ran e p,
        omega arith,
      )

  -- Without --fail-fast, a run that keeps a report, which is empty, does not stop; it gets through every
  -- case of the plans in their order.
  pub run_tests_sync-RanAll :
      (plans : List SuiteExecutionPlan) (r : Run D W)
      → Reports [] r
      → let (stopped, r') = run_tests_sync rt cases false plans r in
        (stopped ≡ false) × RanAll r (concat_map (plan_cases cases) plans) r'
  unfolding should_stop_after_failure
  run_tests_sync-RanAll plans r h =
      elim (run_tests_sync-Ends rt cases false (RanAll r) (λ s. ⊥)
        (λ front cs s (ran, q, w, p, t). (ran, q, Happened.asks ran s.world front w, p, t))
        (λ cs s p. inr (goes_on s.counters, p))
        (λ test cs s s' e p. inr (goes_on s'.counters, Effect-RanAll r s s' test cs e p)) plans [] r
        ([], refl, Happened.nothing, h, omega arith)) [
          | inl (e, q) ↦ absurd q
          | inr (e, p) ↦ (e, p)
        ]
    where
      goes_on : (c : _) → should_stop_after_failure false c ≡ false
      goes_on c = refl

  -- A whole run without --fail-fast, of the plan that was built for selected indices in range, shuffled
  -- or not, on an empty report. The cases that end are the selected ones, each as often as it was
  -- selected, one after the other. Each ends in one of three ways: it is marked as skipped, is not
  -- called and ends as skipped; or it is not marked, is called once, and ends with an outcome that this
  -- invocation means; or a fixture was asked for and refused, it is not called and ends as blocked.
  -- Apart from the calls, only fixtures are asked for. The report has the names and outcomes of the
  -- cases in this order, and the total counts them.
  pub run_tests_sync-selected :
      (s : Shuffling) (idxs : List ℕ) (do_shuffle : Bool) (seed : ℕ) (r : Run D W)
      → InRange cases idxs
      → Reports [] r
      → let plans = build_suite_execution_plan s cases idxs do_shuffle seed in
        let r' = (run_tests_sync rt cases false plans r).1 in
        (ran : List (Case × Outcome)) × Perm (map case_in ran) (cases_at cases idxs)
        × Happened rt r.world ran r'.world
        × Reports ran r'
        × (r'.counters.total ≡ r.counters.total + length ran)
  run_tests_sync-selected s idxs do_shuffle seed r range h =
      let plans = build_suite_execution_plan s cases idxs do_shuffle seed in
      let (ran, q, w, p, t) = (run_tests_sync-RanAll plans r h).1 in
      let l = length-map case_in ran in
      let perm =
        cases_at-perm cases _ idxs
          (build_suite_execution_plan-perm s cases idxs do_shuffle seed range) in
      (
        ran,
        subst (λ cs. Perm cs (cases_at cases idxs)) (plan_idxs-cases cases plans ∙ sym q) perm,
        w,
        p,
        t ∙ ap (λ cs. r.counters.total + length cs) (sym q) ∙ ap (λ n. r.counters.total + n) l,
      )
