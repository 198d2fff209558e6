-- ===== src/Results/Finish/Meaning.antt =====
-- What each outcome says of the invocation.
use gentest.Base.{
  ◌≡◌, refl, ap, ◌≢◌, ◌⊎◌, inl, inr, Bool, true, false, not, ◌&&◌, ◌||◌, List, [], ◌∷◌, Bytes,
  arith, is_empty,
}
use gentest.Cases.{Case}
use gentest.Results.Model.{
  Outcome, pass, fail, skip, blocked, xfail, xpass, InvokeResult, InvokeException, RuntimeSkipKind,
  TestCounters, TestRunContext, user, shared_fixture_infra,
}
use gentest.Results.Finish.{
  finish_invoke_result, is_skip, is_blocked, threw_non_skip, finish_blocked, finish_skip,
  finish_xfail, finish_xpass, finish_failed, finish_passed, finish_fatal,
}
use gentest.Results.Finish.Verdict.{finish_invoke_result-cases, has_failures, should_skip}

-- An exception other than a skip or a block left the test.
abbrev Threw : InvokeException → Type 0
Threw InvokeException.no_exception = ⊥
Threw InvokeException.skip = ⊥
Threw InvokeException.blocked = ⊥
Threw _ = Unit {0}

-- The test skipped itself; the exception alone, without a request in the context, does not count.
abbrev Skipped : InvokeException → Bool → Type 0
Skipped e requested = (e ≡ InvokeException.skip) × (requested ≡ true)

-- It returned, or threw the skip exception without a request.
abbrev Returned : InvokeException → Bool → Type 0
Returned e requested =
    (e ≡ InvokeException.no_exception) ⊎ ((e ≡ InvokeException.skip) × (requested ≡ false))

abbrev Broken : List Bytes → InvokeException → Type 0
Broken failures e = (failures ≢ []) ⊎ Threw e

module _ {D : Type 0} where
  abbrev pub Means : InvokeResult D → Outcome → Type 0
  Means inv pass =
      (inv.ctxinfo.failures ≡ [])
      × Returned inv.exception inv.ctxinfo.runtime_skip_requested
      × (inv.ctxinfo.xfail_requested ≡ false)
  Means inv fail =
      Broken inv.ctxinfo.failures inv.exception
      × ((inv.ctxinfo.xfail_requested ≡ false)
          ⊎ Skipped inv.exception inv.ctxinfo.runtime_skip_requested)
  Means inv skip =
      (inv.ctxinfo.failures ≡ [])
      × Skipped inv.exception inv.ctxinfo.runtime_skip_requested
      × (inv.ctxinfo.runtime_skip_kind ≡ user)
  Means inv blocked =
      (inv.ctxinfo.failures ≡ [])
      × ((inv.exception ≡ InvokeException.blocked)
          ⊎ (Skipped inv.exception inv.ctxinfo.runtime_skip_requested
              × (inv.ctxinfo.runtime_skip_kind ≡ shared_fixture_infra)))
  Means inv xfail =
      Broken inv.ctxinfo.failures inv.exception
      × (inv.ctxinfo.xfail_requested ≡ true)
      × (¬ Skipped inv.exception inv.ctxinfo.runtime_skip_requested)
  Means inv xpass =
      (inv.ctxinfo.failures ≡ [])
      × Returned inv.exception inv.ctxinfo.runtime_skip_requested
      × (inv.ctxinfo.xfail_requested ≡ true)

clean : (xs : List Bytes) → not (is_empty xs) ≡ false → xs ≡ []
clean [] h = refl
clean (x ∷ xs) h = ground arith

unclean : (xs : List Bytes) → not (is_empty xs) ≡ true → xs ≢ []
unclean [] h = ground arith
unclean (x ∷ xs) h = ground arith

threw_non_skip-Threw : (e : InvokeException) → threw_non_skip e ≡ true → Threw e
unfolding threw_non_skip
threw_non_skip-Threw InvokeException.no_exception h = ground arith
threw_non_skip-Threw InvokeException.skip h = ground arith
threw_non_skip-Threw InvokeException.blocked h = ground arith
threw_non_skip-Threw InvokeException.assertion h = tt
threw_non_skip-Threw InvokeException.failure h = tt
threw_non_skip-Threw InvokeException.std_exception h = tt
threw_non_skip-Threw InvokeException.unknown h = tt

blocks_lem : (e : InvokeException) → is_blocked e ≡ true → e ≡ InvokeException.blocked
unfolding is_blocked
blocks_lem InvokeException.no_exception h = ground arith
blocks_lem InvokeException.skip h = ground arith
blocks_lem InvokeException.blocked h = refl
blocks_lem InvokeException.assertion h = ground arith
blocks_lem InvokeException.failure h = ground arith
blocks_lem InvokeException.std_exception h = ground arith
blocks_lem InvokeException.unknown h = ground arith

skips_Skipped :
    (e : InvokeException) (requested : Bool) → (is_skip e && requested) ≡ true → Skipped e requested
unfolding is_skip
skips_Skipped InvokeException.skip requested h = ground arith
skips_Skipped InvokeException.no_exception requested h = ground arith
skips_Skipped InvokeException.blocked requested h = ground arith
skips_Skipped InvokeException.assertion requested h = ground arith
skips_Skipped InvokeException.failure requested h = ground arith
skips_Skipped InvokeException.std_exception requested h = ground arith
skips_Skipped InvokeException.unknown requested h = ground arith

not_skips :
    (e : InvokeException) (requested : Bool)
    → (is_skip e && requested) ≡ false
    → ¬ Skipped e requested
unfolding is_skip
not_skips e requested h (is, asked) = let a = ap is_skip is in ground arith

returns :
    (fs : List Bytes) (e : InvokeException) (requested : Bool)
    → (is_blocked e && not (not (is_empty fs))) ≡ false
    → not (is_empty fs) ≡ false
    → threw_non_skip e ≡ false
    → (is_skip e && requested) ≡ false
    → Returned e requested
unfolding is_blocked threw_non_skip is_skip
returns fs InvokeException.no_exception requested b f t s = inl refl
returns fs InvokeException.skip requested b f t s = inr (refl, s)
returns fs InvokeException.blocked requested b f t s = ground arith
returns fs InvokeException.assertion requested b f t s = ground arith
returns fs InvokeException.failure requested b f t s = ground arith
returns fs InvokeException.std_exception requested b f t s = ground arith
returns fs InvokeException.unknown requested b f t s = ground arith

broken :
    (fs : List Bytes) (e : InvokeException)
    → (not (is_empty fs) || threw_non_skip e) ≡ true
    → Broken fs e
broken [] e h = inr (threw_non_skip-Threw e h)
broken (f ∷ fs) e h = inl (λ eq. ground arith)

-- The conditions read apart: on a block (b), recorded failures (f), an exception (t), a skip (s) and
-- an expected failure (x).
blocking : (b f : Bool) → (b && not f) ≡ true → (b ≡ true) × (f ≡ false)
blocking b f h = ground arith

skipping : (s f t : Bool) → (s && not f && not t) ≡ true → (s ≡ true) × (f ≡ false)
skipping s f t h = ground arith

unskipped : (s f t : Bool) → (s && not f && not t) ≡ false → f ≡ false → t ≡ false → s ≡ false
unskipped s f t h hf ht = ground arith

expected : (x s : Bool) → (x && not s) ≡ true → (x ≡ true) × (s ≡ false)
expected x s h = ground arith

unexpected : (x s : Bool) → (x && not s) ≡ false → (x ≡ false) ⊎ (s ≡ true)
unexpected x s h = ground arith

unexpected_unskipped : (x s : Bool) → (x && not s) ≡ false → s ≡ false → x ≡ false
unexpected_unskipped x s h hs = ground arith

quiet : (f t : Bool) → (f || t) ≡ false → (f ≡ false) × (t ≡ false)
quiet f t h = ground arith

module _ {D : Type 0} where
  -- An outcome is given only for what it means. It is a pass when the test recorded no failure, was
  -- not expected to fail and returned, or threw the skip exception without a request; a failure when
  -- it recorded one or threw, unless it was expected to; a skip or a block when it asked for that and
  -- recorded no failure; an expected failure when it was expected to fail, did not skip and recorded
  -- a failure or threw; an unexpected pass when it was expected to fail and did not.
  pub finish_invoke_result-meaning :
      (state : TestRunContext D) (test : Case) (inv : InvokeResult D) (c : TestCounters)
      → Means inv (finish_invoke_result state test inv c).result.outcome
  unfolding finish_blocked finish_skip finish_xfail finish_xpass finish_failed finish_passed
      finish_fatal
  finish_invoke_result-meaning state test inv c =
      let fs = inv.ctxinfo.failures in
      let e = inv.exception in
      let requested = inv.ctxinfo.runtime_skip_requested in
      finish_invoke_result-cases (λ f. Means inv f.result.outcome) state test inv c
        (λ b. (let p = blocking _ _ b in (clean fs p.1, inl (blocks_lem e p.0))))
        (λ s. (skip_meaning inv.ctxinfo.runtime_skip_kind refl s))
        (λ x t. (let p = expected _ _ x in (broken fs e t, p.0, not_skips e requested p.1)))
        (λ b x t.
          (let p = expected _ _ x in
            let q = quiet _ _ t in (clean fs q.0, returns fs e requested b q.0 q.1 p.1, p.0)))
        (λ x f. (inl (unclean fs f), fail_reason x))
        (λ b s x f t.
          (let k = unskipped _ _ _ s f t in
            (clean fs f, returns fs e requested b f t k, unexpected_unskipped _ _ x k)))
        (λ x f t. (inr (threw_non_skip-Threw e t), fail_reason x))
    where
      skip_meaning :
          (kind : RuntimeSkipKind)
          → inv.ctxinfo.runtime_skip_kind ≡ kind
          → (should_skip inv && not (has_failures inv) && not (threw_non_skip inv.exception)) ≡ true
          → Means inv (finish_skip kind state inv c).result.outcome
      skip_meaning user k s =
          let p = skipping (should_skip inv) (has_failures inv) (threw_non_skip inv.exception) s in
          (
            clean inv.ctxinfo.failures p.1,
            skips_Skipped inv.exception inv.ctxinfo.runtime_skip_requested p.0,
            k,
          )
      skip_meaning shared_fixture_infra k s =
          let p = skipping (should_skip inv) (has_failures inv) (threw_non_skip inv.exception) s in
          (
            clean inv.ctxinfo.failures p.1,
            inr (skips_Skipped inv.exception inv.ctxinfo.runtime_skip_requested p.0, k),
          )

      fail_reason :
          (inv.ctxinfo.xfail_requested && not (should_skip inv)) ≡ false
          → (inv.ctxinfo.xfail_requested ≡ false)
            ⊎ Skipped inv.exception inv.ctxinfo.runtime_skip_requested
      fail_reason x = elim (unexpected _ _ x) [
        | inl e ↦ inl e
        | inr s ↦ inr (skips_Skipped inv.exception inv.ctxinfo.runtime_skip_requested s)
      ]
