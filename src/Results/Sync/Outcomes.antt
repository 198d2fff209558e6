-- ===== src/Results/Sync/Outcomes.antt =====
-- What `run_tests_sync` leaves in the counters and in the accumulator.
use mathlib.Core.Option
use gentest.Base.{
  ℕ, ◌+◌, ◌≤◌, ◌<◌, ◌≡◌, refl, sym, subst, ◌⊎◌, inl, inr, Bool, true, false, Option, none, some,
  List, [], ◌∷◌, ◌++◌, Bytes, arith, ltb, ◌||◌, length, length-append,
}
use gentest.Cases.{Case}
use gentest.Plan.Table.Upsert.{concat_map}
use gentest.Plan.Build.{SuiteExecutionPlan}
use gentest.Results.Model.{Outcome, pass, fail, skip, blocked, xfail, xpass, TestCounters}
use gentest.Results.Finish.Verdict.{tally, tally_outcome, Explained}
use gentest.Results.Execute.{Runtime, Run}
use gentest.Results.Execute.Effect.{Effect, recorded, one_more, counted}
use gentest.Results.Sync.{run_tests_sync, should_stop_after_failure}
use gentest.Results.Sync.Loops.{run_tests_sync-Ends, plan_cases}

-- Every case that was counted has one of the four verdicts; expected failures are among the skipped
-- and unexpected passes among the failed; the failures of the run are the failed cases and some of the
-- blocked ones.
abbrev pub IsBalanced : TestCounters → Type 0
IsBalanced c =
    (c.total ≡ c.passed + c.failed + c.skipped + c.blocked)
    × (c.xfail ≤ c.skipped)
    × (c.xpass ≤ c.failed)
    × (c.failed ≤ c.failures)
    × (c.failures ≤ c.failed + c.blocked)

tally-IsBalanced :
    (outcome : Outcome) (issues : List Bytes) (c : TestCounters)
    → Explained outcome issues
    → IsBalanced c
    → IsBalanced (tally outcome issues (counted c))
tally-IsBalanced pass [] c x b = ground arith
tally-IsBalanced fail [] c x b = ground arith
tally-IsBalanced skip [] c x b = ground arith
tally-IsBalanced blocked [] c x b = ground arith
tally-IsBalanced xfail [] c x b = ground arith
tally-IsBalanced xpass [] c x b = ground arith
tally-IsBalanced pass (i ∷ is) c x b = ground arith
tally-IsBalanced fail (i ∷ is) c x b = ground arith
tally-IsBalanced skip (i ∷ is) c x b = ground arith
tally-IsBalanced blocked (i ∷ is) c x b = ground arith
tally-IsBalanced xfail (i ∷ is) c x b = ground arith
tally-IsBalanced xpass (i ∷ is) c x b = ground arith

-- The summary has `base` failures and one for each of these.
abbrev Counts {ℓ} : {A : Type ℓ} → ℕ → ℕ → Option (ℕ × List A) → Type 0
Counts base failures none = Unit {0}
Counts base failures (some (n, items)) = n ≡ base + failures

-- A counted outcome leaves the failures of the run and the total, and blocks one case at most.
tally_outcome_lem :
    (outcome : Outcome) (c : TestCounters)
    → ((tally_outcome outcome c).failures ≡ c.failures)
      × ((tally_outcome outcome c).total ≡ c.total)
      × ((tally_outcome outcome c).blocked ≤ c.blocked + 1)
tally_outcome_lem pass c = ground arith
tally_outcome_lem fail c = ground arith
tally_outcome_lem skip c = ground arith
tally_outcome_lem blocked c = ground arith
tally_outcome_lem xfail c = ground arith
tally_outcome_lem xpass c = ground arith

tally_lem :
    (outcome : Outcome) (issues : List Bytes) (c : TestCounters)
    → ((tally outcome issues c).failures ≤ c.failures + 1)
      × ((tally outcome issues c).total ≡ c.total)
      × ((tally outcome issues c).blocked ≤ c.blocked + 1)
tally_lem outcome [] c = let h = tally_outcome_lem outcome c in (omega (arith, h.0), h.1, h.2)
tally_lem outcome (i ∷ is) c = let h = tally_outcome_lem outcome c in (omega (arith, h.0), h.1, h.2)

tally-Counts {ℓ} :
    {A : Type ℓ} (base : ℕ) (outcome : Outcome) (issues : List Bytes) (c : TestCounters)
    (keep : Bool) (item : A) (o : Option (ℕ × List A))
    → Counts base c.failures o
    → Counts base
        (tally outcome issues (counted c)).failures
        (Option.map (one_more issues keep item) o)
tally-Counts base outcome issues c keep item none h = tt
tally-Counts base outcome [] c false item (some (n, items)) h =
    let e = (tally_outcome_lem outcome (counted c)).0 in omega arith
tally-Counts base outcome [] c true item (some (n, items)) h =
    let e = (tally_outcome_lem outcome (counted c)).0 in omega arith
tally-Counts base outcome (i ∷ is) c false item (some (n, items)) h =
    let e = (tally_outcome_lem outcome (counted c)).0 in omega arith
tally-Counts base outcome (i ∷ is) c true item (some (n, items)) h =
    let e = (tally_outcome_lem outcome (counted c)).0 in omega arith

-- How far one case can move the counters.
abbrev pub IsNext : TestCounters → TestCounters → Type 0
IsNext c c' =
    (c'.failures ≤ c.failures + 1) × (c'.total ≡ c.total + 1) × (c'.blocked ≤ c.blocked + 1)

pub Effect-IsNext :
    {D W Ctx : Type 0} (rt : Runtime D W Ctx) (test : Case) (r r' : Run D W)
    → Effect rt test r r'
    → IsNext r.counters r'.counters
Effect-IsNext rt test r r' e =
    subst (IsNext r.counters) (sym e.tallied) (tally_lem e.outcome e.issues (counted r.counters))

abbrev Clean : ℕ → TestCounters → Type 0
Clean total c = (c.failures ≡ 0) × (c.blocked ≡ 0) × (c.total ≡ total)

abbrev Failed : TestCounters → Type 0
Failed c = (c.failures ≤ 1) × (c.blocked ≤ 1) × (0 < c.failures + c.blocked)

module _ {D W : Type 0} where
  abbrev pub IsAccounted : ℕ → Run D W → Type 0
  IsAccounted base r =
      IsBalanced r.counters × Counts base r.counters.failures (recorded r.state.acc)

  Effect-IsAccounted :
      {Ctx : Type 0} (rt : Runtime D W Ctx) (base : ℕ) (test : Case) (r r' : Run D W)
      → Effect rt test r r'
      → IsAccounted base r
      → IsAccounted base r'
  Effect-IsAccounted rt base test r r' e (b, k) = (
    subst IsBalanced (sym e.tallied) (tally-IsBalanced e.outcome e.issues r.counters e.explained b),
    subst (Counts base r'.counters.failures) (sym e.noted) (
        subst
          (λ c. Counts base c.failures (
            Option.map (one_more e.issues r.state.record_results (test.name, e.outcome))
              (recorded r.state.acc)))
          (sym e.tallied)
          (tally-Counts base e.outcome e.issues r.counters r.state.record_results
            (test.name, e.outcome) (recorded r.state.acc) k)),
  )

or_stops :
    (f b : ℕ)
    → ((ltb 0 f || ltb 0 b) ≡ true) × (0 < f + b)
      ⊎ ((ltb 0 f || ltb 0 b) ≡ false) × (f ≡ 0) × (b ≡ 0)
or_stops f b = ground arith

stops :
    (c : TestCounters)
    → (should_stop_after_failure true c ≡ true) × (0 < c.failures + c.blocked)
      ⊎ (should_stop_after_failure true c ≡ false) × (c.failures ≡ 0) × (c.blocked ≡ 0)
unfolding should_stop_after_failure
stops c = or_stops c.failures c.blocked

module _ {D W Ctx : Type 0} (rt : Runtime D W Ctx) (cases : List Case) where
  -- Whatever the cases do, and whether the run stops early or not, balanced counters stay balanced,
  -- and the summary keeps having one entry for each failure of the run, besides those it had.
  pub run_tests_sync-IsAccounted :
      (fail_fast : Bool) (plans : List SuiteExecutionPlan) (base : ℕ) (r : Run D W)
      → IsAccounted base r
      → IsAccounted base (run_tests_sync rt cases fail_fast plans r).1
  run_tests_sync-IsAccounted fail_fast plans base r h =
      elim (run_tests_sync-Ends rt cases fail_fast (λ cs. IsAccounted base) (IsAccounted base)
        (λ front cs r p. p) (λ cs r p. either _ r p)
        (λ test cs r r' e p. either _ r' (Effect-IsAccounted rt base test r r' e p)) plans [] r h) [
          | inl (e, q) ↦ q
          | inr (e, p) ↦ p
        ]
    where
      either :
          (b : Bool) (r : Run D W)
          → IsAccounted base r
          → ((b ≡ true) × IsAccounted base r) ⊎ ((b ≡ false) × IsAccounted base r)
      either true r p = inl (refl, p)
      either false r p = inr (refl, p)

  -- With --fail-fast, a run that has neither a failure nor a blocked case stops after the first of
  -- either, so that there is one at most of each; or there is none and all cases of the plans ran.
  pub run_tests_sync-fail_fast :
      (plans : List SuiteExecutionPlan) (r : Run D W)
      → r.counters.failures ≡ 0
      → r.counters.blocked ≡ 0
      → let (stopped, r') = run_tests_sync rt cases true plans r in
        let c = r'.counters in
        ((stopped ≡ true) × (c.failures ≤ 1) × (c.blocked ≤ 1) × (0 < c.failures + c.blocked))
        ⊎ ((stopped ≡ false)
            × (c.failures ≡ 0)
            × (c.blocked ≡ 0)
            × (c.total ≡ r.counters.total + length (concat_map (plan_cases cases) plans)))
  run_tests_sync-fail_fast plans r f b =
      elim (run_tests_sync-Ends rt cases true
        (λ cs r'. Clean (r.counters.total + length cs) r'.counters) (λ r'. Failed r'.counters)
        (λ front cs s p. p) (λ cs s p. absent (r.counters.total + length cs) s.counters p)
        (λ test cs s s' e p. next cs test s.counters s'.counters (Effect-IsNext rt test s s' e) p)
        plans [] r (f, b, omega arith)) [
          | inl (e, q) ↦ inl (e, q.0, q.1, q.2)
          | inr (e, p) ↦ inr (e, p.0, p.1, p.2)
        ]
    where
      next :
          (cs : List Case) (test : Case) (c c' : TestCounters)
          → IsNext c c'
          → Clean (r.counters.total + length cs) c
          → ((should_stop_after_failure true c' ≡ true) × Failed c')
            ⊎ ((should_stop_after_failure true c' ≡ false)
                × Clean (r.counters.total + length (cs ++ test ∷ [])) c')
      next cs test c c' n p =
          let l = length-append cs (test ∷ []) in let k = stops c' in ground arith

      absent :
          (total : ℕ) (c : TestCounters)
          → Clean total c
          → ((should_stop_after_failure true c ≡ true) × Failed c)
            ⊎ ((should_stop_after_failure true c ≡ false) × Clean total c)
      absent total c p = let k = stops c in ground arith
