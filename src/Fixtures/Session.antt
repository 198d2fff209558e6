-- ===== src/Fixtures/Session.antt =====
-- `setup_shared_fixture_runtime` and `teardown_shared_fixture_runtime` of
-- src/runner_fixture_runtime.cpp. Their handlers of exceptions are left out: every exception of a
-- callback is caught where it is called, and no other is modelled.
pub mod Cycle
pub mod Acquire
use mathlib.Core.Option
use gentest.Base.{
  ℕ, Bool, true, false, not, ◌&&◌, ◌||◌, Option, none, some, List, [], ◌∷◌, ◌++◌, Bytes, codes,
  bytes_eq, if◌then◌else◌, is_empty,
}
use gentest.Fixtures.{
  SharedFixtureEntry, SharedFixtureRegistry, SharedFixtureRunGate, SharedFixtureRuntimeSession,
}
use gentest.Fixtures.Phase.{Thread, Callbacks}
use gentest.Fixtures.Gate.{Begun, begin_shared_fixture_run, Ended, end_shared_fixture_run}
use gentest.Fixtures.Setup.{Setting, setup_shared_fixtures}
use gentest.Fixtures.Teardown.{Torn, teardown_shared_fixtures}

-- What a run shares with others, and its thread.
pub record Process (W : Type 0) : Type 0 where
  pub gate : SharedFixtureRunGate
  pub reg : SharedFixtureRegistry
  pub thread : Thread W

pub record Managed (W : Type 0) : Type 0 where
  pub ok : Bool
  pub errors : List Bytes
  pub session : SharedFixtureRuntimeSession
  pub process : Process W

unfoldable pub contains : Bytes → List Bytes → Bool
contains msg [] = false
contains msg (e ∷ errors) = bytes_eq e msg || contains msg errors

unfoldable pub push_new : Bytes → List Bytes → List Bytes
unfolding contains
push_new msg errors = if contains msg errors then errors else errors ++ msg ∷ []

unfoldable pub push_messages : List Bytes → List Bytes → List Bytes
unfolding push_new
push_messages [] errors = errors
push_messages (msg ∷ msgs) errors = push_messages msgs (push_new msg errors)

unfoldable pub push_failures : List SharedFixtureEntry → List Bytes → List Bytes
unfolding push_new
push_failures [] errors = errors
push_failures (entry ∷ entries) errors = push_failures entries (
    if not entry.failed || is_empty entry.error
    then errors
    else push_new (codes "fixture '" ++ entry.fixture_name ++ codes "' " ++ entry.error) errors)

-- The errors of a setup that did not succeed.
unfoldable pub setup_errors : SharedFixtureRegistry → List Bytes → List Bytes
unfolding push_messages push_failures
setup_errors reg errors =
    let found = push_failures reg.entries (push_messages reg.registration_errors errors) in
    if is_empty found
    then (if reg.registration_error
        then codes "shared fixture registration failed"
        else codes "shared fixture setup failed")
      ∷ []
    else found

abbrev pub set_up_with : {W : Type 0} → SharedFixtureRunGate → Begun → Setting W → Managed W
set_up_with gate b s = record {
  ok = s.ok;
  errors = if s.ok then b.errors else setup_errors s.reg b.errors;
  session = b.session;
  process = record { gate = gate; reg = s.reg; thread = s.thread };
}

-- `none` is a setup out of fuel.
unfoldable pub setup_shared_fixture_runtime :
    {W : Type 0} → Callbacks W → ℕ → SharedFixtureRuntimeSession → Process W → Option (Managed W)
unfolding begin_shared_fixture_run setup_shared_fixtures setup_errors
setup_shared_fixture_runtime {W} calls caller session p =
    let b = begin_shared_fixture_run caller [] session p.gate in
    let rejected : Managed W = record {
      ok = false;
      errors = b.errors;
      session = b.session;
      process = p;
    } in
    let s = setup_shared_fixtures calls caller b.gate p.reg p.thread in
    if b.ok then Option.map (set_up_with b.gate b) s else some rejected

abbrev release_error : Option Bytes → List Bytes
release_error none = []
release_error (some error) = error ∷ []

unfoldable pub teardown_shared_fixture_runtime :
    {W : Type 0} → Callbacks W → ℕ → SharedFixtureRuntimeSession → Process W → Managed W
unfolding teardown_shared_fixtures end_shared_fixture_run
teardown_shared_fixture_runtime {W} calls caller session p =
    let nothing : Managed W = record { ok = true; errors = []; session = session; process = p } in
    let t = teardown_shared_fixtures calls caller p.gate p.reg (some []) p.thread in
    let e = end_shared_fixture_run caller session p.gate in
    let texts = Option.get_or t.errors [] in
    if session.owns_gate
    then record {
      ok = t.ok && e.ok;
      errors = texts ++ (if e.ok then [] else release_error e.error);
      session = e.session;
      process = record { gate = e.gate; reg = t.reg; thread = t.thread };
    }
    else nothing
