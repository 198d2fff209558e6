-- ===== src/Fixtures/Session/Acquire.antt =====
-- The fixtures of a run as the executor's interface to the rest of the process: what
-- `acquire_case_fixture` gives a case after the setup.
use gentest.Base.{ℕ, ◌≡◌, refl, true, false, Option, none, some, [], arith, Mem, is_empty}
use gentest.Cases.{Case, FixtureLifetime, no_fixture, member_ephemeral, member_suite, member_global}
use gentest.Results.Model.{InvokeResult}
use gentest.Results.Execute.{
  SharedFixtureScope, suite, global, Runtime, acquired, acquire_for, acquire_case_fixture,
}
use gentest.Fixtures.{SharedFixtureEntry}
use gentest.Fixtures.Phase.{Callbacks}
use gentest.Fixtures.Setup.{Setting, has_run, setup_shared_fixtures}
use gentest.Fixtures.Lookup.{get_shared_fixture}
use gentest.Fixtures.Lookup.Selected.{Fits}
use gentest.Fixtures.Lookup.Available.{setup_shared_fixtures-available}
use gentest.Fixtures.Session.{Process}

-- A runtime that looks fixtures up in the registry of the process.
abbrev pub runtime_of :
    {D W : Type 0}
    → D
    → (Case → Option ℕ → Process W → InvokeResult D × Process W)
    → Runtime D (Process W) ℕ
runtime_of no_time invoke = record {
  no_time = no_time;
  invoke_case_once = invoke;
  get_shared_fixture = λ scope suite_name fixture_name p.
      (get_shared_fixture scope suite_name fixture_name p.reg, p);
}

-- The scope that a case's fixture is looked up in.
abbrev pub scope_of : FixtureLifetime → Option SharedFixtureScope
scope_of no_fixture = none
scope_of member_ephemeral = none
scope_of member_suite = some SharedFixtureScope.suite
scope_of member_global = some SharedFixtureScope.global

module _ {D W : Type 0} (no_time : D)
    (invoke : Case → Option ℕ → Process W → InvokeResult D × Process W) where
  acquire_for-found :
      (lifetime : FixtureLifetime) (scope : SharedFixtureScope) (c : Case) (p : Process W)
      (address : ℕ)
      → scope_of lifetime ≡ some scope
      → is_empty c.fixture ≡ false
      → get_shared_fixture scope c.suite c.fixture p.reg ≡ (some address, [])
      → acquire_for (runtime_of no_time invoke) lifetime c p ≡ (acquired (some address), p)
  unfolding acquire_for
  acquire_for-found no_fixture scope c p address h f g = absurd (ground arith)
  acquire_for-found member_ephemeral scope c p address h f g = absurd (ground arith)
  acquire_for-found member_suite suite c p address h f g = rw (f, g) refl
  acquire_for-found member_suite global c p address h f g = absurd (ground arith)
  acquire_for-found member_global suite c p address h f g = absurd (ground arith)
  acquire_for-found member_global global c p address h f g = rw (f, g) refl

  -- In an active run of the calling thread, with no registration error and no teardown under way, the
  -- setup ends, and if it reports success, every case with the name of a shared fixture that is
  -- registered in its scope and serves its suite acquires the address of an instance.
  pub acquire_case_fixture-after_setup :
      (calls : Callbacks W) (caller : ℕ) (p : Process W)
      → has_run caller p.gate ≡ true
      → p.reg.registration_error ≡ false
      → p.reg.teardown_in_progress ≡ false
      → (s : Setting W) × (setup_shared_fixtures calls caller p.gate p.reg p.thread ≡ some s)
        × (s.ok ≡ true
            → (c : Case) (scope : SharedFixtureScope) (e : SharedFixtureEntry)
            → scope_of c.fixture_lifetime ≡ some scope
            → is_empty c.fixture ≡ false
            → Mem e p.reg.entries
            → Fits scope c.suite c.fixture e
            → let p' : Process W = record { gate = p.gate; reg = s.reg; thread = s.thread } in
              (address : ℕ) × (acquire_case_fixture (runtime_of no_time invoke) c p'
                ≡ (acquired (some address), p')))
  unfolding acquire_case_fixture
  acquire_case_fixture-after_setup calls caller p g r h =
      let (s, q, k) = setup_shared_fixtures-available calls caller p.gate p.reg p.thread g r h in
      (
        s,
        q,
        λ ok c scope e l f m fits.
            let (address, found) = k ok scope c.suite c.fixture e m fits in
            (address, acquire_for-found c.fixture_lifetime scope c _ address l f found),
      )
