-- ===== src/Fixtures/Lookup.antt =====
-- `suite_scope_matches` and `get_shared_fixture` of src/runner_fixture_runtime.cpp.
pub mod Suites
pub mod Selected
pub mod Available
use gentest.Base.{
  ℕ, Bool, true, false, not, ◌&&◌, Option, none, some, List, [], ◌∷◌, Bytes, codes, bytes_eq, ◌==◌,
  leb, ltb, if◌then◌else◌, is_empty, length, strip_prefix,
}
use gentest.Results.Execute.{SharedFixtureScope}
use gentest.Fixtures.{SharedFixtureEntry, SharedFixtureRegistry, same_scope}

-- The tests on what follows the fixture's suite.
unfoldable pub remainder_matches : Bytes → Bool
remainder_matches [] = true
remainder_matches (c ∷ []) = c == b'/'
remainder_matches (c ∷ d ∷ rest) = if c == b'/' then true else c == b':' && d == b':'

-- `requested_suite.starts_with(fixture_suite)` and what follows, if it does.
abbrev prefix_matches : Option Bytes → Bool
prefix_matches none = false
prefix_matches (some remainder) = remainder_matches remainder

unfoldable pub suite_scope_matches : Bytes → Bytes → Bool
unfolding strip_prefix remainder_matches
suite_scope_matches fixture_suite requested_suite =
    if is_empty fixture_suite
    then true
    else (if bytes_eq requested_suite fixture_suite
        then true
        else (if leb (length requested_suite) (length fixture_suite)
            then false
            else prefix_matches (strip_prefix fixture_suite requested_suite)))

unfoldable pub is_candidate : SharedFixtureScope → Bytes → Bytes → SharedFixtureEntry → Bool
unfolding same_scope suite_scope_matches
is_candidate scope suite fixture_name entry =
    same_scope entry.scope scope
    && bytes_eq entry.fixture_name fixture_name
    && suite_scope_matches entry.suite suite

-- `!selected || entry.suite.size() > selected->suite.size()`
unfoldable pub is_better : SharedFixtureEntry → Option SharedFixtureEntry → Bool
is_better entry none = true
is_better entry (some selected) = ltb (length selected.suite) (length entry.suite)

-- The loop, with what is selected so far.
unfoldable pub select_entry :
    SharedFixtureScope
    → Bytes
    → Bytes
    → Option SharedFixtureEntry
    → List SharedFixtureEntry
    → Option SharedFixtureEntry
unfolding is_candidate is_better
select_entry scope suite fixture_name selected [] = selected
select_entry scope suite fixture_name selected (entry ∷ entries) =
    select_entry scope suite fixture_name
      (if is_candidate scope suite fixture_name entry && is_better entry selected
        then some entry
        else selected)
      entries

unfoldable pub in_teardown : Bytes
in_teardown = codes "fixture teardown in progress"

abbrev null_instance : Option ℕ → Option ℕ × Bytes
null_instance none = (none, codes "fixture allocation returned null")
null_instance (some address) = (some address, [])

-- The address and the error, which is empty where none is stored.
unfoldable pub entry_instance : Bool → Option SharedFixtureEntry → Option ℕ × Bytes
unfolding in_teardown
entry_instance teardown_in_progress none =
    (none, if teardown_in_progress then in_teardown else codes "fixture not registered")
entry_instance teardown_in_progress (some selected) =
    if selected.failed
    then (none, selected.error)
    else (if selected.initializing
        then (none, codes "fixture initialization in progress")
        else (if selected.initialized then null_instance selected.shared_instance else (
          none,
          if teardown_in_progress then in_teardown else codes "fixture not initialized",
        )))

abbrev first_error : List Bytes → Bytes
first_error [] = codes "fixture registration failed"
first_error (msg ∷ msgs) = msg

unfoldable pub get_shared_fixture :
    SharedFixtureScope → Bytes → Bytes → SharedFixtureRegistry → Option ℕ × Bytes
unfolding select_entry entry_instance
get_shared_fixture scope suite fixture_name reg =
    if reg.registration_error
    then (none, first_error reg.registration_errors)
    else (entry_instance reg.teardown_in_progress
        (select_entry scope suite fixture_name none reg.entries))
