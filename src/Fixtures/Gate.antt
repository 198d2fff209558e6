-- ===== src/Fixtures/Gate.antt =====
-- The run gate of src/runner_fixture_runtime.cpp: one run at a time, opened and closed by one
-- thread. Each operation holds the gate's mutex from its first look at the gate, so that it is one
-- step. `thread` is the calling thread.
pub mod Exclusion
use gentest.Base.{
  ℕ, Bool, true, false, not, ◌&&◌, ◌||◌, Option, none, some, List, [], ◌∷◌, ◌++◌, Bytes, codes,
  if◌then◌else◌,
}
use gentest.Fixtures.{SharedFixtureRunGate, SharedFixtureRuntimeSession, same_address}

unfoldable pub re_entry : Bytes
re_entry = codes "shared fixture runtime run re-entry from the same thread is not supported"

unfoldable pub other_thread : Bytes
other_thread = codes "shared fixture runtime run is already active in another thread"

unfoldable pub non_owner : Bytes
non_owner = codes "shared fixture runtime session release attempted from non-owner thread"

pub record Begun : Type 0 where
  pub ok : Bool
  pub gate : SharedFixtureRunGate
  pub session : SharedFixtureRuntimeSession
  pub errors : List Bytes

unfoldable pub begin_shared_fixture_run :
    ℕ → List Bytes → SharedFixtureRuntimeSession → SharedFixtureRunGate → Begun
unfolding same_address re_entry other_thread
begin_shared_fixture_run thread errors session gate =
    let unowned = record session { gate_rejected = false; owner_thread = none } in
    let rejected = record unowned { gate_rejected = true } in
    if session.owns_gate
    then record { ok = false; gate = gate; session = rejected; errors = errors ++ re_entry ∷ [] }
    else (if gate.active
        then record {
          ok = false;
          gate = gate;
          session = rejected;
          errors =
              errors
              ++ (if same_address gate.owner (some thread) then re_entry else other_thread) ∷ [];
        }
        else record {
          ok = true;
          gate = record { active = true; owner = some thread };
          session = record { owns_gate = true; gate_rejected = false; owner_thread = some thread };
          errors = errors;
        })

pub record Ended : Type 0 where
  pub ok : Bool
  pub gate : SharedFixtureRunGate
  pub session : SharedFixtureRuntimeSession
  -- What is stored through the pointer to the error, if anything is.
  pub error : Option Bytes

-- The session after the run.
unfoldable pub released : SharedFixtureRuntimeSession → SharedFixtureRuntimeSession
released session = record session { owns_gate = false; owner_thread = none }

unfoldable pub end_shared_fixture_run :
    ℕ → SharedFixtureRuntimeSession → SharedFixtureRunGate → Ended
unfolding same_address non_owner released
end_shared_fixture_run thread session gate =
    if session.owns_gate
    then (if gate.active
          && (not (same_address gate.owner session.owner_thread)
              || not (same_address gate.owner (some thread)))
        then record { ok = false; gate = gate; session = session; error = some non_owner }
        else record {
          ok = true;
          gate = if gate.active then record { active = false; owner = none } else gate;
          session = released session;
          error = none;
        })
    else record { ok = true; gate = gate; session = session; error = none }
