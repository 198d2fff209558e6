-- ===== src/Results/Execute/Effect.antt =====
-- What the execution of one case, or its synthetic skip, changes in the counters and the accumulator.
use mathlib.Core.Option
use gentest.Base.{
  ℕ, codes, ◌+◌, ◌≡◌, refl, ap, ◌∙◌, Bool, true, false, Option, none, some, List, [], ◌∷◌, ◌++◌,
  map, Bytes, if-cases, length, length-append, ◌==◌,
}
use mathlib.Core.List.{map-append}
use gentest.Cases.{Case}
use gentest.Results.Model.{
  Outcome, RunResult, RunAccumulator, TestCounters, TestRunContext, InvokeResult, FailureLoc,
  RuntimeSkipKind, user, shared_fixture_infra,
}
use gentest.Results.Record.{
  add_error_annotation, record_case_result, record_failure_summary, annotate, report_item,
}
use gentest.Results.Finish.{
  Finished, finish_invoke_result, failure_events, finish_blocked, finish_skip, finish_xfail,
  finish_xpass, finish_failed, finish_passed, finish_fatal, located, locs_after, kind_at,
  kinds_after, or_default,
}
use gentest.Results.Finish.Verdict.{
  finish_invoke_result-cases, finish_invoke_result-IsTallied, tally, Explained,
}
use gentest.Results.Execute.{
  Runtime, Run, make_static_skip_result, execute_one, execute_and_record, record_synthetic_skip,
  with_acc, synthetic, null_reason,
}
use gentest.Results.Finish.Meaning.{finish_invoke_result-meaning}
use gentest.Results.Execute.Ran.{WasRefused, Ran, skips, calls, blocks}

-- What the accumulator has recorded: how many failures, and the name and outcome of the reported
-- cases.
abbrev pub recorded : {D : Type 0} → Option (RunAccumulator D) → Option (ℕ × List (Bytes × Outcome))
recorded none = none
recorded (some acc) =
    some (length acc.failure_items, map (λ i. (i.name, i.outcome)) acc.report_items)

-- One more failure where there are issues, and one more report item where these are kept.
abbrev pub one_more {ℓ} : {A : Type ℓ} → List Bytes → Bool → A → ℕ × List A → ℕ × List A
one_more [] false item (n, items) = (n, items)
one_more [] true item (n, items) = (n, items ++ item ∷ [])
one_more (i ∷ is) false item (n, items) = (n + 1, items)
one_more (i ∷ is) true item (n, items) = (n + 1, items ++ item ∷ [])

abbrev pub counted : TestCounters → TestCounters
counted c = record c { total = c.total + 1 }

pub record Effect {D W Ctx : Type 0} (rt : Runtime D W Ctx) (test : Case) (r r' : Run D W)
    : Type 0 where
  pub outcome : Outcome
  pub issues : List Bytes
  pub ran : Ran rt test outcome r.world r'.world
  pub tallied : r'.counters ≡ tally outcome issues (counted r.counters)
  pub explained : Explained outcome issues
  pub noted :
      recorded r'.state.acc
      ≡ Option.map
          (one_more issues r.state.record_results (test.name, outcome))
          (recorded r.state.acc)
  pub setting : r'.state.record_results ≡ r.state.record_results

module _ {D : Type 0} where
  annotate-recorded :
      (acc : Option (RunAccumulator D)) (file : Bytes) (line : ℕ) (title message : Bytes)
      → recorded (Option.map (λ a. add_error_annotation a file line title message) acc)
        ≡ recorded acc
  unfolding add_error_annotation
  annotate-recorded none file line title message = refl
  annotate-recorded (some a) file line title message = refl

  -- The context after a case is finished: new annotations at most.
  abbrev IsAnnotated : TestRunContext D → TestRunContext D → Type 0
  IsAnnotated state state' =
      (recorded state'.acc ≡ recorded state.acc) × (state'.record_results ≡ state.record_results)

  failure_events-IsAnnotated :
      (test : Case) (lines : List Bytes) (kinds : List ℕ) (locs : List FailureLoc)
      (state : TestRunContext D)
      → IsAnnotated state (failure_events test lines kinds locs state).1
  unfolding failure_events
  failure_events-IsAnnotated test [] kinds locs state = (refl, refl)
  failure_events-IsAnnotated test (line ∷ lines) kinds locs state =
      let place = located test locs in
      let marked = annotate state place.0 place.1 test.name line in
      let ih = failure_events-IsAnnotated test lines (kinds_after kinds) (locs_after locs) marked in
      if-cases (λ (p : List Bytes × TestRunContext D). IsAnnotated state p.1)
        (kind_at kinds == b'F') _ _
        (λ e. (ih.0 ∙ annotate-recorded state.acc place.0 place.1 test.name line, ih.1))
        (λ e. failure_events-IsAnnotated test lines (kinds_after kinds) locs state)

  finish_skip-state :
      (kind : RuntimeSkipKind) (state : TestRunContext D) (inv : InvokeResult D) (c : TestCounters)
      → IsAnnotated state (finish_skip kind state inv c).state
  unfolding finish_skip
  finish_skip-state user state inv c = (refl, refl)
  finish_skip-state shared_fixture_infra state inv c = (refl, refl)

  finish_invoke_result-IsAnnotated :
      (state : TestRunContext D) (test : Case) (inv : InvokeResult D) (c : TestCounters)
      → IsAnnotated state (finish_invoke_result state test inv c).state
  unfolding finish_blocked finish_xfail finish_xpass finish_failed finish_passed finish_fatal
  finish_invoke_result-IsAnnotated state test inv c =
      finish_invoke_result-cases (λ f. IsAnnotated state f.state) state test inv c
        (λ b. (annotate-recorded state.acc _ _ _ _, refl))
        (λ s. finish_skip-state inv.ctxinfo.runtime_skip_kind state inv c) (λ x t. (refl, refl))
        (λ b x t. (annotate-recorded state.acc _ _ _ _, refl))
        (λ x f.
          failure_events-IsAnnotated test inv.ctxinfo.event_lines inv.ctxinfo.event_kinds
            inv.ctxinfo.failure_locations state)
        (λ b s x f t. (refl, refl)) (λ x f t. (annotate-recorded state.acc _ _ _ _, refl))

  with_issues-recorded :
      (issues : List Bytes) (keep : Bool) (acc : Option (RunAccumulator D)) (test : Case)
      (result : RunResult D)
      → recorded (
          Option.map
            (λ a. record_case_result a test (record result { summary_issues = issues }) keep)
            acc)
        ≡ Option.map (one_more issues keep (test.name, result.outcome)) (recorded acc)
  unfolding record_case_result record_failure_summary
  with_issues-recorded issues keep none test result = refl
  with_issues-recorded [] false (some a) test result = refl
  with_issues-recorded [] true (some a) test result =
      ap (λ items. some (length a.failure_items, items))
        (map-append (λ i. (i.name, i.outcome)) a.report_items (report_item test result ∷ []))
  with_issues-recorded (i ∷ is) false (some a) test result =
      ap (λ n. some (n, map (λ i. (i.name, i.outcome)) a.report_items))
        (length-append a.failure_items (_ ∷ []))
  with_issues-recorded (i ∷ is) true (some a) test result =
      ap
        (λ n.
          some (n, map (λ i. (i.name, i.outcome)) (a.report_items ++ report_item test result ∷ [])))
        (length-append a.failure_items (_ ∷ []))
      ∙ ap (λ items. some (length a.failure_items + 1, items))
          (map-append (λ i. (i.name, i.outcome)) a.report_items (report_item test result ∷ []))

  with_acc-recorded :
      (state : TestRunContext D) (test : Case) (result : RunResult D)
      → recorded (with_acc state test result).acc
        ≡ Option.map
            (one_more result.summary_issues state.record_results (test.name, result.outcome))
            (recorded state.acc)
  with_acc-recorded state test result =
      with_issues-recorded result.summary_issues state.record_results state.acc test result

module _ {D W Ctx : Type 0} (rt : Runtime D W Ctx) where
  pub record_synthetic_skip_world :
      (test : Case) (reason : Bytes) (r : Run D W)
      → (record_synthetic_skip rt test reason true r).world ≡ r.world
  unfolding record_synthetic_skip
  record_synthetic_skip_world test reason r = refl

  pub record_synthetic_skip-Effect :
      (test : Case) (reason : Bytes) (r : Run D W)
      → WasRefused rt r.world
      → Effect rt test r (record_synthetic_skip rt test reason true r)
  unfolding record_synthetic_skip
  record_synthetic_skip-Effect test reason r refused = record {
    outcome = Outcome.blocked;
    issues = [];
    ran = blocks r.world refused;
    tallied = refl;
    explained = tt;
    noted =
        with_acc-recorded r.state test (
          synthetic rt.no_time Outcome.blocked
            (codes "blocked: " ++ or_default reason null_reason));
    setting = refl;
  }

  -- What the counters and the context of an execution are before the result is recorded.
  record IsExecuted (test : Case) (r : Run D W) (f : Finished D) (w : W) : Type 0 where
    ran : Ran rt test f.result.outcome r.world w
    tallied : f.counters ≡ tally f.result.outcome f.result.summary_issues (counted r.counters)
    explained : Explained f.result.outcome f.result.summary_issues
    annotated : IsAnnotated r.state f.state

  execute_one-IsExecuted :
      (test : Case) (ctx : Option Ctx) (r : Run D W)
      → let (done, w) = execute_one rt test ctx r in IsExecuted test r done w
  unfolding execute_one make_static_skip_result
  execute_one-IsExecuted test ctx r =
      let inv = (rt.invoke_case_once test ctx r.world).0 in
      if-cases (λ (p : Finished D × W). IsExecuted test r p.0 p.1) test.should_skip _ _
        (λ e. record {
          ran = skips r.world e;
          tallied = refl;
          explained = tt;
          annotated = (refl, refl);
        })
        (λ e. record {
          ran =
              calls ctx _ r.world e
                (finish_invoke_result-meaning r.state test inv (counted r.counters));
          tallied = (finish_invoke_result-IsTallied r.state test inv (counted r.counters)).0;
          explained = (finish_invoke_result-IsTallied r.state test inv (counted r.counters)).1;
          annotated = finish_invoke_result-IsAnnotated r.state test inv (counted r.counters);
        })

  pub execute_and_record-Effect :
      (test : Case) (ctx : Option Ctx) (r : Run D W)
      → Effect rt test r (execute_and_record rt test ctx r)
  unfolding execute_and_record
  execute_and_record-Effect test ctx r =
      let done = (execute_one rt test ctx r).0 in
      let h = execute_one-IsExecuted test ctx r in
      record {
        outcome = done.result.outcome;
        issues = done.result.summary_issues;
        ran = h.ran;
        tallied = h.tallied;
        explained = h.explained;
        noted =
            with_acc-recorded done.state test done.result
            ∙ ap
                (λ keep.
                  Option.map
                    (one_more done.result.summary_issues keep (test.name, done.result.outcome))
                    (recorded done.state.acc))
                h.annotated.1
            ∙ ap
                (Option.map (
                  one_more done.result.summary_issues r.state.record_results
                    (test.name, done.result.outcome)))
                h.annotated.0;
        setting = h.annotated.1;
      }
