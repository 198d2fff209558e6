-- ===== src/Fixtures/Teardown/Pass.antt =====
-- A pass over the entries from the last to the first, which tears down each of them.
use gentest.Base.{
  ℕ, Bool, true, false, ◌||◌, Option, none, some, List, [], ◌∷◌, ◌++◌, Bytes, codes, map,
  if◌then◌else◌,
}
use gentest.Fixtures.{SharedFixtureEntry}
use gentest.Fixtures.Phase.{Thread, Callbacks, run_fixture_phase}

-- The address of an instance that is torn down: the fixture was set up, or its setup failed.
abbrev pub torn_address : SharedFixtureEntry → Option ℕ
torn_address e = elim e.shared_instance [
  | none ↦ none
  | some address ↦ if e.initialized || e.failed then some address else none
]

-- The error texts of one teardown and the thread after it.
abbrev pub torn_as :
    {W : Type 0} → SharedFixtureEntry → (Bool × Bytes) × Thread W → List Bytes × Thread W
torn_as e ((true, error), t) = ([], t)
torn_as e ((false, error), t) =
    ((codes "fixture teardown failed for " ++ e.fixture_name ++ codes ": " ++ error) ∷ [], t)

-- The call of a fixture's teardown callback, if it has one, on an address.
abbrev pub call_teardown :
    {W : Type 0}
    → Callbacks W
    → SharedFixtureEntry
    → Option ℕ
    → ℕ
    → Thread W
    → List Bytes × Thread W
call_teardown calls e none address t = ([], t)
call_teardown calls e (some teardown) address t =
    torn_as e (run_fixture_phase (calls.phase teardown address) t)

-- The teardown of one fixture with an instance; any other is left alone.
abbrev pub tear_down :
    {W : Type 0} → Callbacks W → SharedFixtureEntry → Option ℕ → Thread W → List Bytes × Thread W
tear_down calls e none t = ([], t)
tear_down calls e (some address) t = call_teardown calls e e.teardown address t

-- From the last to the first.
abbrev pub tear_down_all :
    {W : Type 0} → Callbacks W → List SharedFixtureEntry → Thread W → List Bytes × Thread W
tear_down_all calls [] t = ([], t)
tear_down_all calls (e ∷ es) t =
    let (later, t') = tear_down_all calls es t in
    let (errors, t'') = tear_down calls e (torn_address e) t' in (later ++ errors, t'')

-- An entry without its instance; one that was torn down is also not being initialized.
abbrev pub after_teardown : Option ℕ → SharedFixtureEntry → SharedFixtureEntry
after_teardown none e = record e { shared_instance = none; initialized = false }
after_teardown (some address) e = record e {
  shared_instance = none;
  initialized = false;
  initializing = false;
}

abbrev pub all_after_teardown : List SharedFixtureEntry → List SharedFixtureEntry
all_after_teardown es = map (λ e. after_teardown (torn_address e) e) es
