-- ===== src/Results/Sync/Loops.antt =====
-- An invariant of the loops of `run_tests_sync`, with the cases that have been recorded, and what
-- holds when they stop early.
use mathlib.Core.List.{append_assoc, append-nil}
use gentest.Base.{
  ℕ, ◌≡◌, refl, sym, ap, subst, ◌⊎◌, inl, inr, Bool, true, false, Option, none, some, List, [], ◌∷◌,
  ◌++◌, Bytes, arith, get_elem?,
}
use gentest.Cases.{Case}
use gentest.Plan.Table.Upsert.{concat_map}
use gentest.Plan.Build.{FixtureGroupPlan, SuiteExecutionPlan}
use gentest.Results.Execute.{
  Runtime, Run, Acquired, unavailable, acquired, acquire_case_fixture,
  shared_fixture_unavailable_message,
}
use gentest.Results.Execute.Effect.{
  Effect, execute_and_record-Effect, record_synthetic_skip-Effect, record_synthetic_skip_world,
}
use gentest.Results.Execute.Ran.{WasRefused}
use gentest.Results.Sync.{
  should_stop_after_failure, until_stop, and_then, on_case, step_at, execute_with, skip_with,
  front_case, acquire_front, run_acquired, run_group, run_plan, run_tests_sync,
}

module _ {S : Type 0} (P : List Case → S → Type 0) (Q : S → Type 0) where
  -- Stopped, so that `Q` holds, or at the end, so that `P` holds after these cases.
  abbrev pub Ends : List Case → Bool × S → Type 0
  Ends cs (stopped, s) = ((stopped ≡ true) × Q s) ⊎ ((stopped ≡ false) × P cs s)

  until_stop-Ends :
      {A : Type 0} (f : A → List Case) (step : A → S → Bool × S)
      → ((x : A) (cs : List Case) (s : S) → P cs s → Ends (cs ++ f x) (step x s))
      → (xs : List A) (cs : List Case) (s : S) → P cs s
      → Ends (cs ++ concat_map f xs) (until_stop step xs s)
  until_stop-Ends f step h [] cs s p = inr (refl, rw append-nil p)
  until_stop-Ends f step h (x ∷ xs) cs s p = elim (h x cs s p) [
    | inl (e, q) ↦ rw e (inl (refl, q))
    | inr (e, p') ↦
        rw (e, ← append_assoc cs (f x) (concat_map f xs))
          (until_stop-Ends f step h xs (cs ++ f x) (step x s).1 p')
  ]

  and_then-Ends :
      (r : Bool × S) (next : S → Bool × S) (cs ds : List Case)
      → Ends cs r
      → ((s : S) → P cs s → Ends (cs ++ ds) (next s))
      → Ends (cs ++ ds) (and_then r next)
  and_then-Ends (true, s) next cs ds (inl (e, q)) h = inl (refl, q)
  and_then-Ends (true, s) next cs ds (inr (e, p)) h = ground arith
  and_then-Ends (false, s) next cs ds (inl (e, q)) h = ground arith
  and_then-Ends (false, s) next cs ds (inr (e, p)) h = h s p

module _ {S : Type 0} (P : List Case → S → Type 0) (Q I : S → Type 0) where
  with_world :
      (cs : List Case) (stopped : Bool) (s : S)
      → Ends P Q cs (stopped, s)
      → I s
      → Ends (λ ds s. P ds s × I s) Q cs (stopped, s)
  with_world cs stopped s (inl q) h = inl q
  with_world cs stopped s (inr (e, p)) h = inr (e, (p, h))

  without_world :
      (cs : List Case) (r : Bool × S) → Ends (λ ds s. P ds s × I s) Q cs r → Ends P Q cs r
  without_world cs (stopped, s) (inl q) = inl q
  without_world cs (stopped, s) (inr (e, (p, h))) = inr (e, p)

abbrev listed : Option Case → List Case
listed none = []
listed (some test) = test ∷ []

-- The cases at these indices, and in a plan in the order of its lists.
abbrev pub cases_at : List Case → List ℕ → List Case
cases_at cases = concat_map (λ i. listed (get_elem? cases i))

abbrev pub group_cases : List Case → List FixtureGroupPlan → List Case
group_cases cases = concat_map (λ g. cases_at cases g.idxs)

abbrev pub plan_cases : List Case → SuiteExecutionPlan → List Case
plan_cases cases p =
    (cases_at cases p.free_like ++ group_cases cases p.suite_groups)
    ++ group_cases cases p.global_groups

module _ {D W Ctx : Type 0} (rt : Runtime D W Ctx) (cases : List Case) (fail_fast : Bool)
    (P : List Case → Run D W → Type 0) (Q : Run D W → Type 0)
    (moves : (front : Case) (cs : List Case) (r : Run D W)
      → P cs r
      → P cs (record r { world = (acquire_case_fixture rt front r.world).1 }))
    (absent : (cs : List Case) (r : Run D W)
      → P cs r
      → Ends P Q cs (should_stop_after_failure fail_fast r.counters, r))
    (runs : (test : Case) (cs : List Case) (r r' : Run D W)
      → Effect rt test r r'
      → P cs r
      → Ends P Q (cs ++ test ∷ []) (should_stop_after_failure fail_fast r'.counters, r')) where
  -- A step on each case, of which the effect is known where `I` holds of the process, and keeps `I`.
  module _ (I : W → Type 0) (f : Case → Run D W → Run D W)
      (works : (test : Case) (r : Run D W) → I r.world → Effect rt test r (f test r))
      (keeps : (test : Case) (r : Run D W) → I r.world → I (f test r).world) where
    step_at-Ends :
        (i : ℕ) (cs : List Case) (r : Run D W)
        → P cs r × I r.world
        → Ends
            (λ ds s. P ds s × I s.world)
            Q
            (cs ++ listed (get_elem? cases i))
            (step_at rt cases fail_fast f i r)
    step_at-Ends i cs r (p, h) = go (get_elem? cases i)
      where
        go :
            (o : Option Case)
            → Ends
                (λ ds s. P ds s × I s.world)
                Q
                (cs ++ listed o)
                (should_stop_after_failure fail_fast (on_case f o r).counters, on_case f o r)
        go none = rw append-nil (with_world P Q (λ s. I s.world) cs _ r (absent cs r p) h)
        go (some test) =
            with_world P Q (λ s. I s.world) (cs ++ test ∷ []) _ (f test r)
              (runs test cs r (f test r) (works test r h) p) (keeps test r h)

    steps-Ends :
        (idxs : List ℕ) (cs : List Case) (r : Run D W)
        → P cs r
        → I r.world
        → Ends P Q (cs ++ cases_at cases idxs) (until_stop (step_at rt cases fail_fast f) idxs r)
    steps-Ends idxs cs r p h =
        without_world P Q (λ s. I s.world) (cs ++ cases_at cases idxs) _
          (until_stop-Ends (λ ds s. P ds s × I s.world) Q (λ i. listed (get_elem? cases i))
            (step_at rt cases fail_fast f) step_at-Ends idxs cs r (p, h))

  executes-Ends :
      (ctx : Option Ctx) (idxs : List ℕ) (cs : List Case) (r : Run D W)
      → P cs r
      → Ends P Q
          (cs ++ cases_at cases idxs)
          (until_stop (step_at rt cases fail_fast (execute_with rt cases fail_fast ctx)) idxs r)
  executes-Ends ctx idxs cs r p =
      steps-Ends (λ w. Unit {0}) (execute_with rt cases fail_fast ctx)
        (λ test r h. execute_and_record-Effect rt test ctx r) (λ test r h. tt) idxs cs r p tt

  run_acquired-Ends :
      (group : FixtureGroupPlan) (a : Acquired Ctx) (w : W) (cs : List Case) (r : Run D W)
      → ((reason : Bytes) → a ≡ unavailable reason → WasRefused rt w)
      → P cs (record r { world = w })
      → Ends P Q (cs ++ cases_at cases group.idxs) (run_acquired rt cases fail_fast group (a, w) r)
  unfolding run_acquired
  run_acquired-Ends group (unavailable reason) w cs r refused p =
      let msg = shared_fixture_unavailable_message group.fixture reason in
      steps-Ends (WasRefused rt) (skip_with rt cases fail_fast msg)
        (λ test. record_synthetic_skip-Effect rt test msg)
        (λ test r h. subst (WasRefused rt) (sym (record_synthetic_skip_world rt test msg r)) h)
        group.idxs cs (record r { world = w }) p (refused reason refl)
  run_acquired-Ends group (acquired ctx) w cs r refused p =
      executes-Ends ctx group.idxs cs (record r { world = w }) p

  run_group-Ends :
      (group : FixtureGroupPlan) (cs : List Case) (r : Run D W)
      → P cs r
      → Ends P Q (cs ++ cases_at cases group.idxs) (run_group rt cases fail_fast group r)
  unfolding run_group
  run_group-Ends group cs r p = at_front (front_case rt cases fail_fast group.idxs)
    where
      at_front :
          (front : Option Case)
          → Ends P Q (cs ++ cases_at cases group.idxs) (
              run_acquired rt cases fail_fast group
                (acquire_front rt cases fail_fast front r.world)
                r)
      at_front none =
          run_acquired-Ends group (acquired none) r.world cs r (λ reason e. absurd (ground arith)) p
      at_front (some test) =
          let a = acquire_case_fixture rt test r.world in
          run_acquired-Ends group a.0 a.1 cs r
            (λ reason e. (test, r.world, reason, ap (λ b. (b, a.1)) e)) (moves test cs r p)

  run_groups-Ends :
      (groups : List FixtureGroupPlan) (cs : List Case) (r : Run D W)
      → P cs r
      → Ends P Q
          (cs ++ group_cases cases groups)
          (until_stop (run_group rt cases fail_fast) groups r)
  run_groups-Ends groups cs r p =
      until_stop-Ends P Q (λ g. cases_at cases g.idxs) (run_group rt cases fail_fast) run_group-Ends
        groups cs r p

  run_plan-Ends :
      (plan : SuiteExecutionPlan) (cs : List Case) (r : Run D W)
      → P cs r
      → Ends P Q (cs ++ plan_cases cases plan) (run_plan rt cases fail_fast plan r)
  unfolding run_plan
  run_plan-Ends plan cs r p =
      let free = cases_at cases plan.free_like in
      let suites = group_cases cases plan.suite_groups in
      let globals = group_cases cases plan.global_groups in
      let first = executes-Ends none plan.free_like cs r p in
      let second =
        and_then-Ends P Q _ (until_stop (run_group rt cases fail_fast) plan.suite_groups)
          (cs ++ free) suites first (run_groups-Ends plan.suite_groups (cs ++ free)) in
      let third =
        and_then-Ends P Q _ (until_stop (run_group rt cases fail_fast) plan.global_groups)
          ((cs ++ free) ++ suites) globals second
          (run_groups-Ends plan.global_groups ((cs ++ free) ++ suites)) in
      rw (← append_assoc, ← append_assoc) third

  pub run_tests_sync-Ends :
      (plans : List SuiteExecutionPlan) (cs : List Case) (r : Run D W)
      → P cs r
      → Ends P Q
          (cs ++ concat_map (plan_cases cases) plans)
          (run_tests_sync rt cases fail_fast plans r)
  unfolding run_tests_sync
  run_tests_sync-Ends plans cs r p =
      until_stop-Ends P Q (plan_cases cases) (run_plan rt cases fail_fast) run_plan-Ends plans cs r
        p
