-- ===== src/Results/Finish/Verdict.antt =====
-- What `finish_invoke_result` makes of an invocation: the outcome and the counters.
use gentest.Base.{
  ◌+◌, ◌≡◌, refl, Bool, true, false, not, ◌&&◌, ◌||◌, List, [], ◌∷◌, Bytes, arith, if-cases,
  is_empty,
}
use gentest.Cases.{Case}
use gentest.Results.Model.{
  Outcome, pass, fail, skip, blocked, xfail, xpass, InvokeResult, RuntimeSkipKind, TestCounters,
  TestRunContext, user, shared_fixture_infra,
}
use gentest.Results.Finish.{
  Finished, finish_invoke_result, is_skip, is_blocked, threw_non_skip, finish_blocked, finish_skip,
  finish_xfail, finish_xpass, finish_failed, finish_passed, finish_fatal, lines_or_first,
}

-- One more case of an outcome, by a summary of it.
abbrev pub tally_outcome : Outcome → TestCounters → TestCounters
tally_outcome pass c = record c { passed = c.passed + 1 }
tally_outcome fail c = record c { failed = c.failed + 1 }
tally_outcome skip c = record c { skipped = c.skipped + 1 }
tally_outcome blocked c = record c { blocked = c.blocked + 1 }
tally_outcome xfail c = record c { xfail = c.xfail + 1; skipped = c.skipped + 1 }
tally_outcome xpass c = record c { xpass = c.xpass + 1; failed = c.failed + 1 }

-- A failure of the run for every case that has an issue to report.
abbrev pub tally : Outcome → List Bytes → TestCounters → TestCounters
tally outcome [] c = tally_outcome outcome c
tally outcome (i ∷ is) c = let t = tally_outcome outcome c in record t { failures = t.failures + 1 }

tally-lines_or_first :
    (lines failures : List Bytes) (c : TestCounters)
    → not (is_empty failures) ≡ true
    → record c { failed = c.failed + 1; failures = c.failures + 1 }
      ≡ tally fail (lines_or_first lines failures) c
tally-lines_or_first [] [] c h = ground arith
tally-lines_or_first [] (f ∷ failures) c h = refl
tally-lines_or_first (l ∷ lines) failures c h = refl

-- Failures and unexpected passes come with an issue for the summary; passes, skips and expected
-- failures with none; blocked cases with or without.
abbrev pub Explained : Outcome → List Bytes → Type 0
Explained pass [] = Unit {0}
Explained fail [] = ⊥
Explained skip [] = Unit {0}
Explained blocked [] = Unit {0}
Explained xfail [] = Unit {0}
Explained xpass [] = ⊥
Explained pass (i ∷ is) = ⊥
Explained fail (i ∷ is) = Unit {0}
Explained skip (i ∷ is) = ⊥
Explained blocked (i ∷ is) = Unit {0}
Explained xfail (i ∷ is) = ⊥
Explained xpass (i ∷ is) = Unit {0}

lines_or_first-Explained :
    (lines failures : List Bytes)
    → not (is_empty failures) ≡ true
    → Explained fail (lines_or_first lines failures)
lines_or_first-Explained [] [] h = ground arith
lines_or_first-Explained [] (f ∷ failures) h = tt
lines_or_first-Explained (l ∷ lines) failures h = tt

module _ {D : Type 0} where
  abbrev pub has_failures : InvokeResult D → Bool
  has_failures inv = not (is_empty inv.ctxinfo.failures)

  abbrev pub should_skip : InvokeResult D → Bool
  should_skip inv = is_skip inv.exception && inv.ctxinfo.runtime_skip_requested

  -- A property of every way to finish, under the conditions that lead to it, holds of the result.
  pub finish_invoke_result-cases :
      (P : Finished D → Type 0) (state : TestRunContext D) (test : Case) (inv : InvokeResult D)
      (c : TestCounters)
      → let threw = threw_non_skip inv.exception in
        let blocks = is_blocked inv.exception && not (has_failures inv) in
        let skips = should_skip inv && not (has_failures inv) && not threw in
        let expects = inv.ctxinfo.xfail_requested && not (should_skip inv) in
        (blocks ≡ true → P (finish_blocked state test inv c))
        → (skips ≡ true → P (finish_skip inv.ctxinfo.runtime_skip_kind state inv c))
        → (expects ≡ true → (has_failures inv || threw) ≡ true → P (finish_xfail state inv c))
        → (blocks ≡ false
            → expects ≡ true
            → (has_failures inv || threw) ≡ false
            → P (finish_xpass state test inv c))
        → (expects ≡ false → has_failures inv ≡ true → P (finish_failed state test inv c))
        → (blocks ≡ false
            → skips ≡ false
            → expects ≡ false
            → has_failures inv ≡ false
            → threw ≡ false
            → P (finish_passed state inv c))
        → (expects ≡ false
            → has_failures inv ≡ false
            → threw ≡ true
            → P (finish_fatal state test inv c))
        → P (finish_invoke_result state test inv c)
  unfolding finish_invoke_result
  finish_invoke_result-cases P state test inv c hb hs hx hp hf hd ht = if-cases P _ _ _ hb (λ b.
      if-cases P _ _ _ hs (λ s.
        if-cases P _ _ _ (λ x. if-cases P _ _ _ (hx x) (hp b x))
          (λ x.
            if-cases P _ _ _ (hf x)
              (λ f. if-cases P _ _ _ (λ t. hd b s x f (not-true t)) (λ t. ht x f (not-false t))))))
    where
      not-true : {b : Bool} → not b ≡ true → b ≡ false
      not-true {b = b} e = ground arith

      not-false : {b : Bool} → not b ≡ false → b ≡ true
      not-false {b = b} e = ground arith

  abbrev pub IsTallied : TestCounters → Finished D → Type 0
  IsTallied c f =
      (f.counters ≡ tally f.result.outcome f.result.summary_issues c)
      × Explained f.result.outcome f.result.summary_issues

  finish_skip-IsTallied :
      (kind : RuntimeSkipKind) (state : TestRunContext D) (inv : InvokeResult D) (c : TestCounters)
      → IsTallied c (finish_skip kind state inv c)
  unfolding finish_skip
  finish_skip-IsTallied user state inv c = (refl, tt)
  finish_skip-IsTallied shared_fixture_infra state inv c = (refl, tt)

  -- The counters move as the result's outcome says: one more case of that outcome, where an expected
  -- failure also counts as skipped and an unexpected pass as failed, and one more failure of the run
  -- exactly when the result has an issue for the summary. Failures and unexpected passes have one, and
  -- passes, skips and expected failures have none.
  pub finish_invoke_result-IsTallied :
      (state : TestRunContext D) (test : Case) (inv : InvokeResult D) (c : TestCounters)
      → IsTallied c (finish_invoke_result state test inv c)
  unfolding finish_blocked finish_xfail finish_xpass finish_failed finish_passed finish_fatal
  finish_invoke_result-IsTallied state test inv c =
      finish_invoke_result-cases (IsTallied c) state test inv c (λ b. (refl, tt))
        (λ s. finish_skip-IsTallied inv.ctxinfo.runtime_skip_kind state inv c) (λ x t. (refl, tt))
        (λ b x t. (refl, tt))
        (λ x f. (
          tally-lines_or_first _ inv.ctxinfo.failures c f,
          lines_or_first-Explained _ inv.ctxinfo.failures f,
        ))
        (λ b s x f t. (refl, tt)) (λ x f t. (refl, tt))
