-- ===== src/Results/Invoke.antt =====
-- `invoke_case_once` of src/runner_case_invoker.cpp outside a measured phase, with `record_failure` of
-- src/runtime_context.cpp. What a test's function records is in the context when the scope of the
-- call ends; the clock and the measured phases are left out.
pub mod Recorded
use gentest.Base.{
  ℕ, Bool, true, false, Option, some, List, [], ◌∷◌, ◌++◌, Bytes, codes, if◌then◌else◌, is_empty,
}
use gentest.Cases.{Case}
use gentest.Results.Model.{InvokeException, FailureLoc, TestContextInfo, InvokeResult}
use gentest.Fixtures.Phase.{first_recorded_failure}

pub data UnhandledExceptionPolicy : Type 0 where
  capture_only record_as_failure : UnhandledExceptionPolicy

-- The exception that leaves a test's function, if any, with its text.
pub data Unhandled : Type 0 where
  nothing skip unknown : Unhandled
  assertion failure std_exception : Bytes → Unhandled

unfoldable pub record_failure : Bytes → TestContextInfo → TestContextInfo
record_failure msg ctx = record ctx {
  failures = ctx.failures ++ msg ∷ [];
  failure_locations = ctx.failure_locations ++ record { file = []; line = 0 } ∷ [];
  event_lines = ctx.event_lines ++ msg ∷ [];
  event_kinds = ctx.event_kinds ++ b'F' ∷ [];
}

unfoldable pub record_under : UnhandledExceptionPolicy → Bytes → TestContextInfo → TestContextInfo
unfolding record_failure
record_under UnhandledExceptionPolicy.capture_only msg ctx = ctx
record_under UnhandledExceptionPolicy.record_as_failure msg ctx = record_failure msg ctx

abbrev failure_message : UnhandledExceptionPolicy → Bytes → Bytes
failure_message UnhandledExceptionPolicy.capture_only what = codes "std::exception: " ++ what
failure_message UnhandledExceptionPolicy.record_as_failure what = what

-- The handlers: the context, the exception and the message.
unfoldable pub handled :
    UnhandledExceptionPolicy
    → Unhandled
    → TestContextInfo
    → TestContextInfo × InvokeException × Bytes
unfolding record_under
handled policy Unhandled.nothing ctx = (ctx, InvokeException.no_exception, [])
handled policy Unhandled.skip ctx = (ctx, InvokeException.skip, [])
handled policy (Unhandled.assertion message) ctx = (ctx, InvokeException.assertion, message)
handled policy (Unhandled.failure what) ctx = (
  record_under policy (codes "FAIL() :: " ++ what) ctx,
  InvokeException.failure,
  failure_message policy what,
)
handled policy (Unhandled.std_exception what) ctx = (
  record_under policy (codes "unexpected std::exception: " ++ what) ctx,
  InvokeException.std_exception,
  codes "std::exception: " ++ what,
)
handled policy Unhandled.unknown ctx = (
  record_under policy (codes "unknown exception") ctx,
  InvokeException.unknown,
  codes "unknown exception",
)

-- An assertion is told by the first failure that it recorded.
unfoldable pub final_message : InvokeException → TestContextInfo → Bytes → Bytes
unfolding first_recorded_failure
final_message InvokeException.assertion ctx message =
    let recorded = first_recorded_failure (some ctx) in
    if is_empty recorded then message else recorded
final_message _ ctx message = message

unfoldable pub invoke_case_once :
    {D W Ctx : Type 0}
    → (Case → Option Ctx → W → (TestContextInfo × Unhandled × D) × W)
    → UnhandledExceptionPolicy
    → Case
    → Option Ctx
    → W
    → InvokeResult D × W
unfolding handled final_message
invoke_case_once {D} call policy c ctx w =
    let ((info, thrown, elapsed), w') = call c ctx w in
    let (info', exception, message) = handled policy thrown info in
    let out : InvokeResult D = record {
      ctxinfo = info';
      exception = exception;
      elapsed_s = elapsed;
      message = final_message exception info' message;
    } in
    (out, w')
