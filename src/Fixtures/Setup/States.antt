-- ===== src/Fixtures/Setup/States.antt =====
-- The states that the setup loop leaves the fixtures in.
use gentest.Base.{
  ℕ, ◌≡◌, refl, ◌⊎◌, inl, inr, Bool, true, false, Option, none, some, Bytes, codes, arith, is_empty,
}
use gentest.Fixtures.{SharedFixtureEntry}
use gentest.Fixtures.Phase.{Thread, Callbacks, format_fixture_error}
use gentest.Fixtures.Setup.{
  mark_initializing, allocation_failed, keep_instance, setup_failed, mark_initialized, run_setup,
  allocation_error,
}
use gentest.Fixtures.Setup.Pass.{concluded_as, settled_as, is_settled}

pub record IsReady (e : SharedFixtureEntry) : Type 0 where
  pub initialized : e.initialized ≡ true
  pub initializing : e.initializing ≡ false
  pub failed : e.failed ≡ false
  pub available : (address : ℕ) × (e.shared_instance ≡ some address)

-- Failed, with an error text.
pub record IsBroken (e : SharedFixtureEntry) : Type 0 where
  pub initialized : e.initialized ≡ false
  pub initializing : e.initializing ≡ false
  pub failed : e.failed ≡ true
  pub explained : is_empty e.error ≡ false

pub record SameRegistration (e' e : SharedFixtureEntry) : Type 0 where
  pub fixture_name : e'.fixture_name ≡ e.fixture_name
  pub suite : e'.suite ≡ e.suite
  pub scope : e'.scope ≡ e.scope
  pub create : e'.create ≡ e.create
  pub setup : e'.setup ≡ e.setup
  pub teardown : e'.teardown ≡ e.teardown

-- The fixture is ready and the result good, or the fixture has failed and so has the setup.
abbrev pub IsSetUp : SharedFixtureEntry → Bool × SharedFixtureEntry → Type 0
IsSetUp e (ok, e') =
    (((ok ≡ true) × IsReady e') ⊎ ((ok ≡ false) × IsBroken e')) × SameRegistration e' e

format_fixture_error-filled :
    (stage detail : Bytes) → is_empty (format_fixture_error stage detail) ≡ false
unfolding format_fixture_error
format_fixture_error-filled stage detail = ground arith

allocation_error-filled :
    (create : Option ℕ) (error : Bytes) → is_empty (allocation_error create error) ≡ false
unfolding allocation_error
allocation_error-filled none error = refl
allocation_error-filled (some create_fn) error =
    format_fixture_error-filled (codes "allocation") error

module _ {W : Type 0} where
  concluded_as-IsSetUp :
      (e : SharedFixtureEntry) (address : ℕ) (r : (Bool × Bytes) × Thread W)
      → e.shared_instance ≡ some address
      → IsSetUp e (concluded_as e r).0
  unfolding mark_initialized setup_failed
  concluded_as-IsSetUp e address ((true, error), t) h = (
    inl (
      refl,
      record { initialized = refl; initializing = refl; failed = refl; available = (address, h) },
    ),
    record {
      fixture_name = refl;
      suite = refl;
      scope = refl;
      create = refl;
      setup = refl;
      teardown = refl;
    },
  )
  concluded_as-IsSetUp e address ((false, error), t) h = (
    inr (
      refl,
      record {
        initialized = refl;
        initializing = refl;
        failed = refl;
        explained = format_fixture_error-filled (codes "setup") error;
      },
    ),
    record {
      fixture_name = refl;
      suite = refl;
      scope = refl;
      create = refl;
      setup = refl;
      teardown = refl;
    },
  )

  pub settled_as-IsSetUp :
      (calls : Callbacks W) (e : SharedFixtureEntry) (a : (Option ℕ × Bytes) × Thread W)
      → IsSetUp e (settled_as calls (mark_initializing e) a).0
  unfolding mark_initializing allocation_failed keep_instance
  settled_as-IsSetUp calls e ((none, error), t) = (
    inr (
      refl,
      record {
        initialized = refl;
        initializing = refl;
        failed = refl;
        explained = allocation_error-filled e.create error;
      },
    ),
    record {
      fixture_name = refl;
      suite = refl;
      scope = refl;
      create = refl;
      setup = refl;
      teardown = refl;
    },
  )
  settled_as-IsSetUp calls e ((some address, error), t) =
      let h =
        concluded_as-IsSetUp (keep_instance address (mark_initializing e)) address
          (run_setup calls e.setup address t) refl in
      (
        h.0,
        record {
          fixture_name = h.1.fixture_name;
          suite = h.1.suite;
          scope = h.1.scope;
          create = h.1.create;
          setup = h.1.setup;
          teardown = h.1.teardown;
        },
      )

pub IsSetUp-settled :
    (e : SharedFixtureEntry) (p : Bool × SharedFixtureEntry) → IsSetUp e p → is_settled p.1 ≡ true
IsSetUp-settled e p (inl h, s) = ground (arith, h.1.initialized)
IsSetUp-settled e p (inr h, s) = ground (arith, h.1.failed)
