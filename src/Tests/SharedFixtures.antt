-- ===== src/Tests/SharedFixtures.antt =====
-- The theorems on shared fixtures at two fixtures, and runs of their definitions.
use mathlib.Core.Option
use gentest.Base.{
  ℕ, ◌≡◌, refl, ◌↔◌, true, false, Option, none, some, List, [], ◌∷◌, ◌++◌, bytes_eq, codes, arith,
  ◌≤◌, is_empty, length, All, Mem,
}
use gentest.Cases.{Case}
use gentest.Results.Model.{InvokeResult}
use gentest.Results.Execute.{SharedFixtureScope, acquired, acquire_case_fixture}
use gentest.Fixtures.{shared_fixture_order_less, bytes_lt, same_address, SharedFixtureEntry}
use gentest.Fixtures.Registration.{register_entry, register_shared_fixture}
use gentest.Fixtures.Registration.Validity.{IsValid, register_shared_fixture-IsValid}
use gentest.Fixtures.Registration.Branches.{Registered, register_entry-Registered}
use gentest.Fixtures.Gate.{begin_shared_fixture_run, end_shared_fixture_run}
use gentest.Fixtures.Gate.Exclusion.{
  Runs, begin_by, Step, Reachable, IsExclusive, Reachable-IsExclusive,
  begin_shared_fixture_run-lost,
}
use gentest.Fixtures.Phase.{run_fixture_phase}
use gentest.Fixtures.Setup.{Setting, has_run, setup_shared_fixtures}
use gentest.Fixtures.Setup.States.{IsReady}
use gentest.Fixtures.Setup.Outcome.{EachSetUp, setup_shared_fixtures-EachSetUp}
use gentest.Fixtures.Teardown.{teardown_shared_fixtures}
use gentest.Fixtures.Teardown.Pass.{tear_down_all, all_after_teardown}
use gentest.Fixtures.Teardown.Reverse.{teardown_shared_fixtures-reverse}
use gentest.Fixtures.Lookup.{suite_scope_matches, get_shared_fixture}
use gentest.Fixtures.Lookup.Suites.{Serves, suite_scope_matches_iff}
use gentest.Fixtures.Lookup.Selected.{Fits, Gives, get_shared_fixture_sound}
use gentest.Fixtures.Session.{
  Process, Managed, setup_shared_fixture_runtime, teardown_shared_fixture_runtime,
}
use gentest.Fixtures.Session.Cycle.{shared_fixture_runtime-cycle}
use gentest.Fixtures.Session.Acquire.{runtime_of, scope_of, acquire_case_fixture-after_setup}
use gentest.Tests.Data.{invocation}
use gentest.Tests.FixtureData.{disk, two, two_ready, logging, thread, held, free, unowned, owned}

held_run : has_run 5 held ≡ true
unfolding has_run same_address
held_run = refl

two-IsValid : IsValid two
unfolding shared_fixture_order_less bytes_eq bytes_lt
two-IsValid = record {
  sorted = ((refl, tt), (tt, tt));
  scoped = (((λ s. ground arith), tt), (tt, tt));
  reported = refl;
}

register_shared_fixture-IsValid_example : IsValid (
    register_shared_fixture free SharedFixtureScope.suite
      (codes "io")
      (codes "Db")
      (some 12)
      none
      none
      two)
register_shared_fixture-IsValid_example =
    register_shared_fixture-IsValid free SharedFixtureScope.suite (codes "io") (codes "Db")
      (some 12) none none two two-IsValid

register_entry-Registered_example : Registered free disk two (register_entry free disk two)
register_entry-Registered_example = register_entry-Registered free disk two

abbrev idle_runs : Runs
idle_runs = record { gate = free; sessions = λ k. unowned }

Reachable-IsExclusive_example : IsExclusive (begin_by 6 1 [] (begin_by 5 0 [] idle_runs))
Reachable-IsExclusive_example =
    Reachable-IsExclusive (begin_by 6 1 [] (begin_by 5 0 [] idle_runs)) (
      Reachable.step (begin_by 5 0 [] idle_runs) (begin_by 6 1 [] (begin_by 5 0 [] idle_runs))
        (Reachable.step idle_runs (begin_by 5 0 [] idle_runs)
          (Reachable.start idle_runs (refl, λ k. refl)) (Step.begins 5 0 []))
        (Step.begins 6 1 []))

begin_shared_fixture_run-lost_example :
    let b = begin_shared_fixture_run 5 [] owned held in
    (b.ok ≡ false)
    × ((t : ℕ)
        → let e = end_shared_fixture_run t b.session b.gate in
          (e.ok ≡ false) × (e.gate.active ≡ true) × (e.session.owner_thread ≡ none))
begin_shared_fixture_run-lost_example =
    begin_shared_fixture_run-lost 5 [] owned held 5 refl refl refl

setup_shared_fixtures-EachSetUp_example :
    (s : Setting (List ℕ)) × (setup_shared_fixtures logging 5 held two thread ≡ some s)
    × EachSetUp two.entries s.reg.entries
    × ((s.ok ≡ true) ↔ All IsReady s.reg.entries)
setup_shared_fixtures-EachSetUp_example =
    setup_shared_fixtures-EachSetUp logging 5 held two thread held_run refl refl

teardown_shared_fixtures-reverse_example :
    let (texts, t') = tear_down_all logging two_ready.entries thread in
    teardown_shared_fixtures logging 5 held two_ready (some []) thread ≡ record {
      ok = is_empty texts;
      reg = record two_ready {
        entries = all_after_teardown two_ready.entries;
        teardown_in_progress = false;
      };
      errors = some ([] ++ texts);
      thread = t';
    }
teardown_shared_fixtures-reverse_example =
    teardown_shared_fixtures-reverse logging 5 held two_ready (some []) thread held_run

-- Disk is torn down before Db.
teardown_order : (tear_down_all logging two_ready.entries thread).1.world ≡ 2 ∷ 3 ∷ []
unfolding run_fixture_phase
teardown_order = refl

suite_scope_matches_iff_example :
    (suite_scope_matches (codes "math") (codes "math/fast") ≡ true)
    ↔ Serves (codes "math") (codes "math/fast")
suite_scope_matches_iff_example = suite_scope_matches_iff (codes "math") (codes "math/fast")

db_lookup :
    get_shared_fixture SharedFixtureScope.suite (codes "math") (codes "Db") two_ready
    ≡ (some 10, [])
unfolding get_shared_fixture bytes_eq
db_lookup = refl

get_shared_fixture_sound_example :
    (two_ready.registration_error ≡ false)
    × ((e : SharedFixtureEntry) × Mem e two_ready.entries
        × Fits SharedFixtureScope.suite (codes "math") (codes "Db") e
        × Gives e 10
        × All
            (λ x.
              Fits SharedFixtureScope.suite (codes "math") (codes "Db") x
              → length x.suite ≤ length e.suite)
            two_ready.entries)
get_shared_fixture_sound_example =
    get_shared_fixture_sound SharedFixtureScope.suite (codes "math") (codes "Db") two_ready 10 []
      db_lookup

abbrev process : Process (List ℕ)
process = record { gate = free; reg = two; thread = thread }

shared_fixture_runtime-cycle_example :
    (m : Managed (List ℕ)) × (setup_shared_fixture_runtime logging 5 unowned process ≡ some m)
    × (m.session.owns_gate ≡ true)
    × (m.process.gate.active ≡ true)
    × (is_empty m.errors ≡ m.ok)
    × (let d = teardown_shared_fixture_runtime logging 5 m.session m.process in
        (d.session.owns_gate ≡ false) × (d.process.gate.active ≡ false))
shared_fixture_runtime-cycle_example =
    shared_fixture_runtime-cycle logging 5 unowned process refl refl refl

abbrev running : Process (List ℕ)
running = record process { gate = held }

abbrev invoke : Case → Option ℕ → Process (List ℕ) → InvokeResult ℕ × Process (List ℕ)
invoke test ctx p = (invocation [], p)

acquire_case_fixture-after_setup_example :
    (s : Setting (List ℕ)) × (setup_shared_fixtures logging 5 held two thread ≡ some s)
    × (s.ok ≡ true
        → (c : Case) (scope : SharedFixtureScope) (e : SharedFixtureEntry)
        → scope_of c.fixture_lifetime ≡ some scope
        → is_empty c.fixture ≡ false
        → Mem e two.entries
        → Fits scope c.suite c.fixture e
        → let p' : Process (List ℕ) = record { gate = held; reg = s.reg; thread = s.thread } in
          (address : ℕ) × (acquire_case_fixture (runtime_of 0 invoke) c p'
            ≡ (acquired (some address), p')))
acquire_case_fixture-after_setup_example =
    acquire_case_fixture-after_setup 0 invoke logging 5 running held_run refl refl

-- The setup of the two succeeds.
two_set_up : Option.map (λ s. s.ok) (setup_shared_fixtures logging 5 held two thread) ≡ some true
unfolding setup_shared_fixtures
two_set_up = refl
