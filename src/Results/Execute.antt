-- ===== src/Results/Execute.antt =====
-- The rest of src/runner_case_result.cpp, and `acquire_case_fixture` of
-- src/runner_fixture_runtime.cpp: a case is skipped, or invoked and its result recorded.
pub mod Effect
pub mod Ran
use mathlib.Core.Option
use gentest.Base.{
  ℕ, ◌+◌, Bool, true, false, not, Option, none, some, [], ◌∷◌, ◌++◌, Bytes, codes, if◌then◌else◌,
  is_empty,
}
use gentest.Cases.{Case, FixtureLifetime, no_fixture, member_ephemeral, member_suite, member_global}
use gentest.Results.Model.{Outcome, RunResult, InvokeResult, TestCounters, TestRunContext}
use gentest.Results.Record.{record_case_result}
use gentest.Results.Finish.{Finished, finish_invoke_result, or_default}

pub data SharedFixtureScope : Type 0 where
  suite global : SharedFixtureScope

-- What the execution of the cases asks of the rest of the process, whose state is a `W`: to call a
-- test's function on a fixture's address or the null pointer, under `invoke_case_once`, and to look
-- up a shared fixture by its scope, suite and name, which gives its address, if it is available, and
-- a reason.
pub record Runtime (D W Ctx : Type 0) : Type 0 where
  pub no_time : D
  pub invoke_case_once : Case → Option Ctx → W → InvokeResult D × W
  pub get_shared_fixture : SharedFixtureScope → Bytes → Bytes → W → (Option Ctx × Bytes) × W

pub data Acquired (Ctx : Type 0) : Type 0 where
  unavailable : Bytes → Acquired Ctx
  acquired : Option Ctx → Acquired Ctx

-- What a case's execution changes: the process, the context's accumulator and the counters.
pub record Run (D W : Type 0) : Type 0 where
  pub world : W
  pub state : TestRunContext D
  pub counters : TestCounters

unfoldable pub null_reason : Bytes
null_reason = codes "fixture allocation returned null"

abbrev pub fresh : {D : Type 0} → D → RunResult D
fresh no_time = record {
  time_s = no_time;
  skipped = false;
  outcome = Outcome.pass;
  skip_reason = [];
  xfail_reason = [];
  failures = [];
  summary_issues = [];
  logs = [];
  timeline = [];
  attachments = [];
}

-- The result of a case that did not run.
abbrev pub synthetic : {D : Type 0} → D → Outcome → Bytes → RunResult D
synthetic no_time outcome skip_reason = record (fresh no_time) {
  skipped = true;
  outcome = outcome;
  skip_reason = skip_reason;
}

unfoldable pub make_static_skip_result :
    {D : Type 0} → D → TestRunContext D → Case → TestCounters → Finished D
make_static_skip_result no_time state test c = record {
  result = synthetic no_time Outcome.skip test.skip_reason;
  counters = record c { total = c.total + 1; skipped = c.skipped + 1 };
  state = state;
}

unfoldable pub shared_fixture_unavailable_message : Bytes → Bytes → Bytes
unfolding null_reason
shared_fixture_unavailable_message fixture reason =
    let reason' = or_default reason null_reason in
    if is_empty fixture
    then reason'
    else codes "shared fixture unavailable for '" ++ fixture ++ codes "': " ++ reason'

abbrev acquired_shared : {Ctx W : Type 0} → (Option Ctx × Bytes) × W → Acquired Ctx × W
acquired_shared ((none, reason), w) = (Acquired.unavailable (or_default reason null_reason), w)
acquired_shared ((some ctx, reason), w) = (Acquired.acquired (some ctx), w)

abbrev pub with_acc : {D : Type 0} → TestRunContext D → Case → RunResult D → TestRunContext D
with_acc state test result = record state {
  acc = Option.map (λ acc. record_case_result acc test result state.record_results) state.acc;
}

module _ {D W Ctx : Type 0} (rt : Runtime D W Ctx) where
  unfoldable pub acquire_for : FixtureLifetime → Case → W → Acquired Ctx × W
  unfolding null_reason
  acquire_for no_fixture c w = (Acquired.acquired none, w)
  acquire_for member_ephemeral c w = (Acquired.acquired none, w)
  acquire_for member_suite c w =
      if is_empty c.fixture
      then (Acquired.unavailable null_reason, w)
      else acquired_shared (rt.get_shared_fixture SharedFixtureScope.suite c.suite c.fixture w)
  acquire_for member_global c w =
      if is_empty c.fixture
      then (Acquired.unavailable null_reason, w)
      else acquired_shared (rt.get_shared_fixture SharedFixtureScope.global c.suite c.fixture w)

  unfoldable pub acquire_case_fixture : Case → W → Acquired Ctx × W
  unfolding acquire_for
  acquire_case_fixture c = acquire_for c.fixture_lifetime c

  unfoldable pub execute_one : Case → Option Ctx → Run D W → Finished D × W
  unfolding make_static_skip_result finish_invoke_result
  execute_one test ctx r =
      if test.should_skip
      then (make_static_skip_result rt.no_time r.state test r.counters, r.world)
      else (let c = record r.counters { total = r.counters.total + 1 } in
          let (inv, w) = rt.invoke_case_once test ctx r.world in
          (finish_invoke_result r.state test inv c, w))

  unfoldable pub execute_and_record : Case → Option Ctx → Run D W → Run D W
  unfolding execute_one record_case_result
  execute_and_record test ctx r =
      let (done, w) = execute_one test ctx r in
      record { world = w; state = with_acc done.state test done.result; counters = done.counters }

  unfoldable pub record_synthetic_skip : Case → Bytes → Bool → Run D W → Run D W
  unfolding record_case_result null_reason
  record_synthetic_skip test reason true r =
      let issue = or_default reason null_reason in
      let c = r.counters in
      record r {
        counters = record c { total = c.total + 1; blocked = c.blocked + 1 };
        state =
            with_acc r.state test
              (synthetic rt.no_time Outcome.blocked (codes "blocked: " ++ issue));
      }
  record_synthetic_skip test reason false r =
      let c = r.counters in
      record r {
        counters = record c { total = c.total + 1; skipped = c.skipped + 1 };
        state = with_acc r.state test (synthetic rt.no_time Outcome.skip reason);
      }
