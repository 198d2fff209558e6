-- ===== src/Fixtures/Registration.antt =====
-- `register_shared_fixture` of src/runner_fixture_runtime.cpp. Both mutexes are held throughout, so
-- that a registration is one step. What is printed is left out.
pub mod Validity
pub mod Branches
use gentest.Base.{
  ℕ, Bool, true, false, not, ◌&&◌, Option, none, List, [], ◌∷◌, ◌++◌, Bytes, codes, bytes_eq,
  if◌then◌else◌,
}
use gentest.Results.Execute.{SharedFixtureScope}
use gentest.Fixtures.{
  SharedFixtureEntry, SharedFixtureRegistry, SharedFixtureRunGate, same_address, same_scope,
  shared_fixture_order_less,
}

unfoldable pub shared_fixture_callbacks_match :
    SharedFixtureEntry → Option ℕ → Option ℕ → Option ℕ → Bool
unfolding same_address
shared_fixture_callbacks_match entry create setup teardown =
    same_address entry.create create
    && same_address entry.setup setup
    && same_address entry.teardown teardown

-- What the loop over the entries finds.
pub data Scan : Type 0 where
  unknown repeated : Scan
  conflict : Bytes → Scan

unfoldable pub conflicting_callbacks : Bytes → Bytes
conflicting_callbacks fixture_name =
    codes "fixture '"
    ++ fixture_name
    ++ codes "' registered multiple times with conflicting callbacks"

unfoldable pub conflicting_scopes : Bytes → Bytes
conflicting_scopes fixture_name =
    codes "fixture '" ++ fixture_name ++ codes "' registered with conflicting scopes."

unfoldable pub run_is_active : Bytes → Bytes
run_is_active fixture_name =
    codes "fixture '" ++ fixture_name ++ codes "' cannot be registered while a test run is active"

-- What the loop finds at an entry, or after it. The arguments of the registration are the fields of
-- the entry to be registered.
unfoldable pub scan_entry : SharedFixtureEntry → SharedFixtureEntry → Scan → Scan
unfolding same_scope shared_fixture_callbacks_match conflicting_callbacks conflicting_scopes
scan_entry new entry rest =
    let same_name = bytes_eq entry.fixture_name new.fixture_name in
    if same_name && bytes_eq entry.suite new.suite && same_scope entry.scope new.scope
    then (if shared_fixture_callbacks_match entry new.create new.setup new.teardown
        then Scan.repeated
        else Scan.conflict (conflicting_callbacks new.fixture_name))
    else (if same_name && not (same_scope entry.scope new.scope)
        then Scan.conflict (conflicting_scopes entry.fixture_name)
        else rest)

unfoldable pub scan_entries : SharedFixtureEntry → List SharedFixtureEntry → Scan
unfolding scan_entry
scan_entries new [] = Scan.unknown
scan_entries new (entry ∷ entries) = scan_entry new entry (scan_entries new entries)

-- The entry is put before the first one that is not less, which is where std::ranges::lower_bound
-- points in a sorted vector.
unfoldable pub insert_entry : SharedFixtureEntry → List SharedFixtureEntry → List SharedFixtureEntry
unfolding shared_fixture_order_less
insert_entry new [] = new ∷ []
insert_entry new (entry ∷ entries) =
    if shared_fixture_order_less entry new
    then entry ∷ insert_entry new entries
    else new ∷ entry ∷ entries

unfoldable pub registration_failed : Bytes → SharedFixtureRegistry → SharedFixtureRegistry
registration_failed msg reg = record reg {
  registration_error = true;
  registration_errors = reg.registration_errors ++ msg ∷ [];
}

abbrev pub after_scan : Scan → SharedFixtureEntry → SharedFixtureRegistry → SharedFixtureRegistry
after_scan Scan.unknown new reg = record reg { entries = insert_entry new reg.entries }
after_scan Scan.repeated new reg = reg
after_scan (Scan.conflict msg) new reg = registration_failed msg reg

unfoldable pub register_entry :
    SharedFixtureRunGate → SharedFixtureEntry → SharedFixtureRegistry → SharedFixtureRegistry
unfolding scan_entries insert_entry registration_failed run_is_active
register_entry gate new reg =
    if gate.active
    then registration_failed (run_is_active new.fixture_name) reg
    else after_scan (scan_entries new reg.entries) new reg

-- An entry with what the members of the class are initialized to.
unfoldable pub fresh_entry :
    SharedFixtureScope → Bytes → Bytes → Option ℕ → Option ℕ → Option ℕ → SharedFixtureEntry
fresh_entry scope suite fixture_name create setup teardown = record {
  fixture_name = fixture_name;
  suite = suite;
  scope = scope;
  shared_instance = none;
  initialized = false;
  initializing = false;
  failed = false;
  error = [];
  create = create;
  setup = setup;
  teardown = teardown;
}

unfoldable pub register_shared_fixture :
    SharedFixtureRunGate
    → SharedFixtureScope
    → Bytes
    → Bytes
    → Option ℕ
    → Option ℕ
    → Option ℕ
    → SharedFixtureRegistry
    → SharedFixtureRegistry
unfolding register_entry fresh_entry
register_shared_fixture gate scope suite fixture_name create setup teardown reg =
    register_entry gate (fresh_entry scope suite fixture_name create setup teardown) reg
