-- ===== src/Results/Execute/Ran.antt =====
-- What can happen to a case in a run, apart from the counters and the report.
use gentest.Base.{◌≡◌, true, false, Option, Bytes}
use gentest.Cases.{Case}
use gentest.Results.Model.{Outcome}
use gentest.Results.Finish.Meaning.{Means}
use gentest.Results.Execute.{Runtime, acquire_case_fixture, unavailable}

module _ {D W Ctx : Type 0} (rt : Runtime D W Ctx) where
  -- The process right after a case asked for its fixture and was refused.
  abbrev pub WasRefused : W → Type 0
  WasRefused w' =
      (front : Case) × (w : W) × (reason : Bytes) × (acquire_case_fixture rt front w
        ≡ (unavailable reason, w'))

  -- What happened to a case, by its outcome and the process before and after: it is marked as skipped
  -- and was not called; or it is not marked and was called, and the outcome is what the invocation
  -- means; or it is blocked and was not called, and a fixture was asked for right before and refused.
  pub data Ran (test : Case) : Outcome → W → W → Type 0 where
    skips : (w : W) → test.should_skip ≡ true → Ran test Outcome.skip w w
    calls :
        (ctx : Option Ctx) (o : Outcome) (w : W)
        → test.should_skip ≡ false
        → Means (rt.invoke_case_once test ctx w).0 o
        → Ran test o w (rt.invoke_case_once test ctx w).1
    blocks : (w : W) → WasRefused w → Ran test Outcome.blocked w w
