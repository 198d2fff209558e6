-- ===== src/Fixtures/Setup.antt =====
-- `reset_shared_fixture_run_state` and `setup_shared_fixtures` of src/runner_fixture_runtime.cpp.
-- While a run is active no registration changes the entries, so that an index stays valid between
-- the critical sections of an iteration.
pub mod Pass
pub mod States
pub mod Loop
pub mod Outcome
use gentest.Base.{
  ℕ, zero, suc, ◌+◌, Bool, true, false, not, ◌&&◌, ◌||◌, Option, none, some, List, [], ◌∷◌, ◌++◌,
  Bytes, codes, if◌then◌else◌, is_empty, length, map,
}
use gentest.Plan.Table.{modify}
use gentest.Fixtures.{SharedFixtureEntry, SharedFixtureRegistry, SharedFixtureRunGate, same_address}
use gentest.Fixtures.Phase.{
  Thrown, nothing, Called, Thread, Callbacks, clear_bench_error, resolve_call, run_fixture_phase,
  format_fixture_error,
}

unfoldable pub reset_entry : SharedFixtureEntry → SharedFixtureEntry
reset_entry entry = record entry {
  shared_instance = none;
  initialized = false;
  initializing = false;
  failed = false;
  error = [];
}

unfoldable pub reset_shared_fixture_run_state : SharedFixtureRegistry → SharedFixtureRegistry
unfolding reset_entry
reset_shared_fixture_run_state reg = record reg { entries = map reset_entry reg.entries }

-- The first entry that is neither set up nor failed nor begun, with its index counted from `i`.
unfoldable pub find_pending : ℕ → List SharedFixtureEntry → Option (ℕ × SharedFixtureEntry)
find_pending i [] = none
find_pending i (entry ∷ entries) =
    let rest = find_pending (suc i) entries in
    if entry.initialized || entry.initializing || entry.failed then rest else some (i, entry)

unfoldable pub mark_initializing : SharedFixtureEntry → SharedFixtureEntry
mark_initializing entry = record entry { initializing = true }

unfoldable pub allocation_failed : Bytes → SharedFixtureEntry → SharedFixtureEntry
allocation_failed error entry = record entry {
  shared_instance = none;
  initialized = false;
  initializing = false;
  failed = true;
  error = error;
}

unfoldable pub keep_instance : ℕ → SharedFixtureEntry → SharedFixtureEntry
keep_instance address entry = record entry { shared_instance = some address }

unfoldable pub setup_failed : Bytes → SharedFixtureEntry → SharedFixtureEntry
setup_failed error entry = record entry {
  initialized = false;
  initializing = false;
  failed = true;
  error = error;
}

unfoldable pub mark_initialized : SharedFixtureEntry → SharedFixtureEntry
mark_initialized entry = record entry {
  initialized = true;
  initializing = false;
  failed = false;
  error = [];
}

-- The locals and the globals of the loop.
pub record Setting (W : Type 0) : Type 0 where
  pub ok : Bool
  pub reg : SharedFixtureRegistry
  pub thread : Thread W

unfoldable pub change_entry :
    ℕ → (SharedFixtureEntry → SharedFixtureEntry) → SharedFixtureRegistry → SharedFixtureRegistry
unfolding modify
change_entry i f reg = record reg { entries = modify i f reg.entries }

-- The address a factory has returned, if no exception left it.
unfoldable pub returned_address : Thrown → Option ℕ → Option ℕ
returned_address Thrown.nothing address = address
returned_address _ address = none

-- The fixture's address, unless there is an error, and the error.
unfoldable pub allocate :
    {W : Type 0} → Callbacks W → Option ℕ → Bytes → Thread W → (Option ℕ × Bytes) × Thread W
unfolding clear_bench_error resolve_call returned_address
allocate calls none suite_name t = ((none, codes "missing factory"), t)
allocate calls (some create_fn) suite_name t =
    let (called, t') = calls.create create_fn suite_name (clear_bench_error t) in
    let (error, t'') = resolve_call (called, t') in
    let address = returned_address called.thrown called.returned in
    ((if is_empty error then address else none, error), t'')

-- `setup_ok` with the error.
unfoldable pub run_setup :
    {W : Type 0} → Callbacks W → Option ℕ → ℕ → Thread W → (Bool × Bytes) × Thread W
unfolding run_fixture_phase
run_setup calls none address t = ((true, []), t)
run_setup calls (some setup_fn) address t = run_fixture_phase (calls.phase setup_fn address) t

unfoldable pub allocation_error : Option ℕ → Bytes → Bytes
unfolding format_fixture_error
allocation_error none error = codes "fixture allocation failed: missing factory"
allocation_error (some create_fn) error = format_fixture_error (codes "allocation") error

-- What follows the setup callback, in the entry and in the run.
unfoldable pub conclude :
    {W : Type 0} → ℕ → Bool → SharedFixtureRegistry → (Bool × Bytes) × Thread W → Setting W
unfolding change_entry mark_initialized setup_failed format_fixture_error
conclude i ok reg ((true, error), t) = record {
  ok = ok;
  reg = change_entry i mark_initialized reg;
  thread = t;
}
conclude i ok reg ((false, error), t) = record {
  ok = false;
  reg = change_entry i (setup_failed (format_fixture_error (codes "setup") error)) reg;
  thread = t;
}

-- What follows the allocation.
unfoldable pub settle :
    {W : Type 0}
    → Callbacks W
    → ℕ
    → SharedFixtureEntry
    → Bool
    → SharedFixtureRegistry
    → (Option ℕ × Bytes) × Thread W
    → Setting W
unfolding change_entry allocation_failed keep_instance run_setup allocation_error conclude
settle calls i entry ok reg ((none, error), t) = record {
  ok = false;
  reg = change_entry i (allocation_failed (allocation_error entry.create error)) reg;
  thread = t;
}
settle calls i entry ok reg ((some address, error), t) =
    conclude i ok (change_entry i (keep_instance address) reg)
      (run_setup calls entry.setup address t)

unfoldable pub setup_entry :
    {W : Type 0} → Callbacks W → ℕ → SharedFixtureEntry → Setting W → Setting W
unfolding change_entry mark_initializing allocate settle
setup_entry calls i entry s =
    settle calls i entry s.ok (change_entry i mark_initializing s.reg)
      (allocate calls entry.create entry.suite s.thread)

-- `none` is a run out of fuel.
unfoldable pub setup_loop : {W : Type 0} → Callbacks W → ℕ → Setting W → Option (Setting W)
unfolding find_pending setup_entry
setup_loop calls zero s = none
setup_loop calls (suc fuel) s = elim s.reg.teardown_in_progress [
  | true ↦ some s
  | false ↦ elim (find_pending 0 s.reg.entries) [
    | none ↦ some s
    | some (i, entry) ↦ setup_loop calls fuel (setup_entry calls i entry s)
  ]
]

-- Whether the calling thread has the run.
unfoldable pub has_run : ℕ → SharedFixtureRunGate → Bool
unfolding same_address
has_run caller gate = gate.active && same_address gate.owner (some caller)

-- One iteration for each entry, and the last one.
unfoldable pub setup_shared_fixtures :
    {W : Type 0}
    → Callbacks W
    → ℕ
    → SharedFixtureRunGate
    → SharedFixtureRegistry
    → Thread W
    → Option (Setting W)
unfolding has_run reset_shared_fixture_run_state setup_loop
setup_shared_fixtures {W} calls caller gate reg t =
    let refused : Setting W = record { ok = false; reg = reg; thread = t } in
    let ready : Setting W = record {
      ok = true;
      reg = reset_shared_fixture_run_state reg;
      thread = t;
    } in
    let looped = setup_loop calls (length reg.entries + 1) ready in
    if has_run caller gate
    then (if reg.registration_error then some refused else looped)
    else some refused
