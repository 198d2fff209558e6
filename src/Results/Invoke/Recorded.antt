-- ===== src/Results/Invoke/Recorded.antt =====
-- An exception that no test handles is recorded as a failure.
use gentest.Base.{◌≡◌, refl, Bool, true, false, Option, List, [], ◌∷◌, ◌++◌, Bytes, is_empty, arith}
use gentest.Cases.{Case}
use gentest.Results.Model.{InvokeException, TestContextInfo}
use gentest.Results.Invoke.{
  record_as_failure, Unhandled, record_failure, record_under, handled, invoke_case_once,
}

-- What is neither a skip nor an assertion.
abbrev pub is_unexpected : InvokeException → Bool
is_unexpected InvokeException.failure = true
is_unexpected InvokeException.std_exception = true
is_unexpected InvokeException.unknown = true
is_unexpected _ = false

append-filled : (xs : List Bytes) (x : Bytes) → is_empty (xs ++ x ∷ []) ≡ false
append-filled [] x = refl
append-filled (y ∷ xs) x = refl

handled-recorded :
    (thrown : Unhandled) (ctx : TestContextInfo)
    → is_unexpected (handled record_as_failure thrown ctx).1 ≡ true
    → is_empty (handled record_as_failure thrown ctx).0.failures ≡ false
unfolding handled record_failure record_under
handled-recorded Unhandled.nothing ctx h = absurd (ground arith)
handled-recorded Unhandled.skip ctx h = absurd (ground arith)
handled-recorded Unhandled.unknown ctx h = append-filled ctx.failures _
handled-recorded (Unhandled.assertion message) ctx h = absurd (ground arith)
handled-recorded (Unhandled.failure what) ctx h = append-filled ctx.failures _
handled-recorded (Unhandled.std_exception what) ctx h = append-filled ctx.failures _

-- Where unhandled exceptions are recorded, an invocation that ends by one, and not by a skip or an
-- assertion, has a failure in its context.
pub invoke_case_once-recorded :
    {D W Ctx : Type 0} (call : Case → Option Ctx → W → (TestContextInfo × Unhandled × D) × W)
    (c : Case) (ctx : Option Ctx) (w : W)
    → let inv = (invoke_case_once call record_as_failure c ctx w).0 in
      is_unexpected inv.exception ≡ true → is_empty inv.ctxinfo.failures ≡ false
unfolding invoke_case_once
invoke_case_once-recorded call c ctx w h = handled-recorded (call c ctx w).0.1 (call c ctx w).0.0 h
