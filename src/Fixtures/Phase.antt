-- ===== src/Fixtures/Phase.antt =====
-- One call of a fixture's callback: `resolve_fixture_context_issue`, `run_fixture_phase` and
-- `format_fixture_error` of src/runner_fixture_runtime.cpp, with the bench error of
-- include/gentest/detail/runtime_support.h and `first_recorded_failure` of
-- include/gentest/detail/runtime_context.h. The display name of a context is left out.
use gentest.Base.{
  ℕ, Bool, true, false, not, ◌&&◌, Option, none, some, List, [], ◌∷◌, ◌++◌, Bytes, codes, bytes_eq,
  if◌then◌else◌, is_empty, strip_prefix,
}
use gentest.Results.Model.{TestContextInfo}

-- What a callback leaves by: an exception with its text, or its return.
pub data Thrown : Type 0 where
  nothing skip unknown : Thrown
  assertion std_exception : Bytes → Thrown

-- What a callback did: what it recorded in the context that is made for it, the error text that it
-- stored through its argument, the exception and, where it creates a fixture, the address returned.
pub record Called : Type 0 where
  pub ctx : TestContextInfo
  pub error : Bytes
  pub thrown : Thrown
  pub returned : Option ℕ

-- The calling thread: its bench error, and what user code reads and changes.
pub record Thread (W : Type 0) : Type 0 where
  pub bench_error : Bytes
  pub world : W

-- The callbacks, by their addresses: `create` is called on a suite, `setup` and `teardown` on a
-- fixture's address. They are taken to register no fixtures, which a run refuses with an error, and
-- to begin or end no run.
pub record Callbacks (W : Type 0) : Type 0 where
  pub create : ℕ → Bytes → Thread W → Called × Thread W
  pub phase : ℕ → ℕ → Thread W → Called × Thread W

unfoldable pub clear_bench_error : {W : Type 0} → Thread W → Thread W
clear_bench_error t = record t { bench_error = [] }

unfoldable pub has_bench_error : {W : Type 0} → Thread W → Bool
has_bench_error t = not (is_empty t.bench_error)

unfoldable pub take_bench_error : {W : Type 0} → Thread W → Bytes × Thread W
take_bench_error t = (t.bench_error, record t { bench_error = [] })

abbrev pub front_or_empty : List Bytes → Bytes
front_or_empty [] = []
front_or_empty (f ∷ fs) = f

unfoldable pub first_recorded_failure : Option TestContextInfo → Bytes
first_recorded_failure none = []
first_recorded_failure (some ctx) = front_or_empty ctx.failures

unfoldable pub skip_without_state : Bytes
skip_without_state = codes "skip requested without active runtime skip state"

-- The part after the bench error.
unfoldable pub resolve_skip : Option TestContextInfo → Bytes → Bool → Bytes
unfolding skip_without_state
resolve_skip none current_error caught_runtime_skip =
    if caught_runtime_skip then skip_without_state else current_error
resolve_skip (some ctx) current_error caught_runtime_skip =
    if ctx.runtime_skip_requested
    then (if is_empty ctx.runtime_skip_reason
        then codes "skip requested"
        else ctx.runtime_skip_reason)
    else (if caught_runtime_skip then skip_without_state else current_error)

unfoldable pub resolve_fixture_context_issue :
    {W : Type 0} → Option TestContextInfo → Bytes → Bool → Bool → Thread W → Bytes × Thread W
unfolding first_recorded_failure has_bench_error take_bench_error resolve_skip
resolve_fixture_context_issue ctx current_error caught_assertion caught_runtime_skip t =
    let first_failure = first_recorded_failure ctx in
    if caught_assertion && not (is_empty first_failure)
    then (first_failure, t)
    else (if not (is_empty current_error)
        then (current_error, t)
        else (if not (is_empty first_failure)
            then (first_failure, t)
            else (if has_bench_error t
                then take_bench_error t
                else (resolve_skip ctx current_error caught_runtime_skip, t))))

-- The error text after the handlers.
unfoldable pub caught_error : Thrown → Bytes → Bytes
caught_error Thrown.nothing error = error
caught_error Thrown.skip error = error
caught_error (Thrown.assertion message) error = message
caught_error (Thrown.std_exception what) error = codes "std::exception: " ++ what
caught_error Thrown.unknown error = codes "unknown exception"

unfoldable pub is_assertion : Thrown → Bool
is_assertion (Thrown.assertion message) = true
is_assertion _ = false

unfoldable pub is_skip : Thrown → Bool
is_skip Thrown.skip = true
is_skip _ = false

unfoldable pub resolve_call : {W : Type 0} → Called × Thread W → Bytes × Thread W
unfolding resolve_fixture_context_issue caught_error is_assertion is_skip
resolve_call (called, t) =
    resolve_fixture_context_issue (some called.ctx) (caught_error called.thrown called.error)
      (is_assertion called.thrown) (is_skip called.thrown) t

-- Whether the phase succeeded, and its error.
unfoldable pub run_fixture_phase :
    {W : Type 0} → (Thread W → Called × Thread W) → Thread W → (Bool × Bytes) × Thread W
unfolding clear_bench_error resolve_call
run_fixture_phase fn t =
    let (error, t') = resolve_call (fn (clear_bench_error t)) in ((is_empty error, error), t')

abbrev is_some : Option Bytes → Bool
is_some none = false
is_some (some rest) = true

unfoldable pub format_fixture_error : Bytes → Bytes → Bytes
unfolding strip_prefix
format_fixture_error stage detail =
    let allocation = bytes_eq stage (codes "allocation") in
    if is_empty detail
    then codes "fixture " ++ stage ++ codes " failed"
    else (if allocation && bytes_eq detail (codes "returned null")
        then codes "fixture allocation returned null"
        else (if allocation && is_some (strip_prefix (codes "std::exception:") detail)
            then codes "fixture construction threw " ++ detail
            else (if allocation && bytes_eq detail (codes "unknown exception")
                then codes "fixture construction threw unknown exception"
                else codes "fixture " ++ stage ++ codes " failed: " ++ detail)))
