-- ===== src/Fixtures/Session/Cycle.antt =====
-- A run from its setup to its teardown.
use gentest.Base.{
  ℕ, ◌≡◌, refl, inl, inr, Bool, true, false, some, List, [], Bytes, arith, Bool-cases, is_empty,
  ==_iff, if◌then◌else◌,
}
use gentest.Fixtures.{
  SharedFixtureRegistry, SharedFixtureRunGate, SharedFixtureRuntimeSession, same_address,
}
use gentest.Fixtures.Phase.{Thread, Callbacks}
use gentest.Fixtures.Gate.{begin_shared_fixture_run, released}
use gentest.Fixtures.Gate.Exclusion.{end_shared_fixture_run-released}
use gentest.Fixtures.Setup.{Setting, has_run, setup_shared_fixtures}
use gentest.Fixtures.Setup.Outcome.{setup_shared_fixtures-EachSetUp}
use gentest.Fixtures.Session.{
  Process, Managed, set_up_with, setup_errors, push_failures, push_messages,
  setup_shared_fixture_runtime, teardown_shared_fixture_runtime,
}

-- The gate of a run of this thread.
abbrev pub held_by : ℕ → SharedFixtureRunGate
held_by caller = record { active = true; owner = some caller }

abbrev pub owned_by : ℕ → SharedFixtureRuntimeSession
owned_by caller = record { owns_gate = true; gate_rejected = false; owner_thread = some caller }

begin_shared_fixture_run-owned :
    (caller : ℕ) (session : SharedFixtureRuntimeSession) (gate : SharedFixtureRunGate)
    → session.owns_gate ≡ false
    → gate.active ≡ false
    → begin_shared_fixture_run caller [] session gate
      ≡ record { ok = true; gate = held_by caller; session = owned_by caller; errors = [] }
unfolding begin_shared_fixture_run
begin_shared_fixture_run-owned caller session gate o a = rw (o, a) refl

held_by-has_run : (caller : ℕ) → has_run caller (held_by caller) ≡ true
unfolding has_run same_address
held_by-has_run caller = (==_iff caller caller).1 refl

setup_errors-filled :
    (reg : SharedFixtureRegistry) (errors : List Bytes) → is_empty (setup_errors reg errors) ≡ false
unfolding setup_errors
setup_errors-filled reg errors =
    elim (Bool-cases
      (is_empty (push_failures reg.entries (push_messages reg.registration_errors errors)))) [
        | inl e ↦ rw e refl
        | inr e ↦ rw e e
      ]

reported :
    (ok : Bool) (reg : SharedFixtureRegistry)
    → is_empty (if ok then [] else setup_errors reg []) ≡ ok
reported true reg = refl
reported false reg = setup_errors-filled reg []

module _ {W : Type 0} (calls : Callbacks W) (caller : ℕ) where
  setup_shared_fixtures-refused :
      (gate : SharedFixtureRunGate) (reg : SharedFixtureRegistry) (t : Thread W)
      → has_run caller gate ≡ true
      → reg.registration_error ≡ true
      → setup_shared_fixtures calls caller gate reg t
        ≡ some (record { ok = false; reg = reg; thread = t })
  unfolding setup_shared_fixtures
  setup_shared_fixtures-refused gate reg t g e = ground arith

  setup_shared_fixtures-ends :
      (gate : SharedFixtureRunGate) (reg : SharedFixtureRegistry) (t : Thread W)
      → has_run caller gate ≡ true
      → reg.teardown_in_progress ≡ false
      → (s : Setting W) × (setup_shared_fixtures calls caller gate reg t ≡ some s)
  setup_shared_fixtures-ends gate reg t g h = elim (Bool-cases reg.registration_error) [
    | inl e ↦
        (record { ok = false; reg = reg; thread = t }, setup_shared_fixtures-refused gate reg t g e)
    | inr e ↦
        (let (s, q, each, ready) = setup_shared_fixtures-EachSetUp calls caller gate reg t g e h in
          (s, q))
  ]

  teardown_shared_fixture_runtime-released :
      (p : Process W)
      → p.gate ≡ held_by caller
      → let d = teardown_shared_fixture_runtime calls caller (owned_by caller) p in
        (d.session.owns_gate ≡ false) × (d.process.gate.active ≡ false)
  unfolding teardown_shared_fixture_runtime released
  teardown_shared_fixture_runtime-released p h =
      rw
        (
          h,
          end_shared_fixture_run-released caller (owned_by caller) (held_by caller) refl refl refl
              refl,
        )
        (refl, refl)

  -- A run that begins while no other is active and no teardown is under way: its setup ends and has
  -- the gate, whatever the fixtures do; it reports errors exactly if it does not succeed; and the
  -- teardown by the same thread gives the gate back.
  pub shared_fixture_runtime-cycle :
      (session : SharedFixtureRuntimeSession) (p : Process W)
      → session.owns_gate ≡ false
      → p.gate.active ≡ false
      → p.reg.teardown_in_progress ≡ false
      → (m : Managed W) × (setup_shared_fixture_runtime calls caller session p ≡ some m)
        × (m.session.owns_gate ≡ true)
        × (m.process.gate.active ≡ true)
        × (is_empty m.errors ≡ m.ok)
        × (let d = teardown_shared_fixture_runtime calls caller m.session m.process in
            (d.session.owns_gate ≡ false) × (d.process.gate.active ≡ false))
  unfolding setup_shared_fixture_runtime
  shared_fixture_runtime-cycle session p o a h =
      let (s, q) =
        setup_shared_fixtures-ends (held_by caller) p.reg p.thread (held_by-has_run caller) h in
      (
        set_up_with (held_by caller)
            (record { ok = true; gate = held_by caller; session = owned_by caller; errors = [] }) s,
        rw (begin_shared_fixture_run-owned caller session p.gate o a, q) refl,
        refl,
        refl,
        reported s.ok s.reg,
        teardown_shared_fixture_runtime-released _ refl,
      )
