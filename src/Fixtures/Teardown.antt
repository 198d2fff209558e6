-- ===== src/Fixtures/Teardown.antt =====
-- `teardown_shared_fixtures` of src/runner_fixture_runtime.cpp. What is printed is left out.
pub mod Pass
pub mod Reverse
use mathlib.Core.Option
use gentest.Base.{
  ℕ, suc, Bool, true, false, ◌||◌, Option, none, some, List, [], ◌∷◌, ◌++◌, Bytes, codes,
  if◌then◌else◌,
}
use gentest.Fixtures.{SharedFixtureEntry, SharedFixtureRegistry, SharedFixtureRunGate}
use gentest.Fixtures.Phase.{Thread, Callbacks, run_fixture_phase}
use gentest.Fixtures.Setup.{change_entry, has_run}

pub record TeardownWorkItem : Type 0 where
  pub index : ℕ
  pub fixture_name : Bytes
  pub shared_instance : ℕ
  pub teardown : Option ℕ

-- The entry as a work item, if it has an instance that was set up or whose setup failed.
unfoldable pub work_item : ℕ → SharedFixtureEntry → Option ℕ → Option TeardownWorkItem
work_item i entry none = none
work_item i entry (some address) =
    if entry.initialized || entry.failed
    then some (record {
      index = i;
      fixture_name = entry.fixture_name;
      shared_instance = address;
      teardown = entry.teardown;
    })
    else none

unfoldable pub drop_instance : SharedFixtureEntry → SharedFixtureEntry
drop_instance entry = record entry { shared_instance = none; initialized = false }

-- The first loop, which runs from the last entry to the first: the entries after it, and the work.
unfoldable pub collect_entry :
    SharedFixtureEntry
    → Option TeardownWorkItem
    → List SharedFixtureEntry × List TeardownWorkItem
    → List SharedFixtureEntry × List TeardownWorkItem
unfolding drop_instance
collect_entry entry none (entries, work) = (drop_instance entry ∷ entries, work)
collect_entry entry (some item) (entries, work) = (entry ∷ entries, work ++ item ∷ [])

unfoldable pub collect_work :
    ℕ → List SharedFixtureEntry → List SharedFixtureEntry × List TeardownWorkItem
unfolding work_item collect_entry
collect_work i [] = ([], [])
collect_work i (entry ∷ entries) =
    collect_entry entry (work_item i entry entry.shared_instance) (collect_work (suc i) entries)

-- The result, the registry, the vector behind the pointer, if it is not null, and the thread.
pub record Torn (W : Type 0) : Type 0 where
  pub ok : Bool
  pub reg : SharedFixtureRegistry
  pub errors : Option (List Bytes)
  pub thread : Thread W

unfoldable pub run_teardown :
    {W : Type 0} → Callbacks W → Option ℕ → ℕ → Thread W → (Bool × Bytes) × Thread W
unfolding run_fixture_phase
run_teardown calls none address t = ((true, []), t)
run_teardown calls (some teardown) address t = run_fixture_phase (calls.phase teardown address) t

unfoldable pub teardown_message : Bytes → Bytes → Bytes
teardown_message fixture_name error =
    codes "fixture teardown failed for " ++ fixture_name ++ codes ": " ++ error

unfoldable pub push_error : Bytes → Option (List Bytes) → Option (List Bytes)
push_error message errors = Option.map (λ es. es ++ message ∷ []) errors

unfoldable pub forget_instance : SharedFixtureEntry → SharedFixtureEntry
forget_instance entry = record entry {
  shared_instance = none;
  initialized = false;
  initializing = false;
}

-- What follows a teardown callback. An index out of range changes no entry.
unfoldable pub torn_item :
    {W : Type 0} → TeardownWorkItem → Torn W → (Bool × Bytes) × Thread W → Torn W
unfolding change_entry forget_instance push_error teardown_message
torn_item item s ((true, error), t) = record s {
  reg = change_entry item.index forget_instance s.reg;
  thread = t;
}
torn_item item s ((false, error), t) = record {
  ok = false;
  reg = change_entry item.index forget_instance s.reg;
  errors = push_error (teardown_message item.fixture_name error) s.errors;
  thread = t;
}

-- The second loop.
unfoldable pub run_work : {W : Type 0} → Callbacks W → List TeardownWorkItem → Torn W → Torn W
unfolding run_teardown torn_item
run_work calls [] s = s
run_work calls (item ∷ work) s =
    run_work calls work
      (torn_item item s (run_teardown calls item.teardown item.shared_instance s.thread))

unfoldable pub set_teardown : Bool → SharedFixtureRegistry → SharedFixtureRegistry
set_teardown b reg = record reg { teardown_in_progress = b }

unfoldable pub no_session : Bytes
no_session = codes "shared fixture teardown requires an active runtime session"

unfoldable pub teardown_shared_fixtures :
    {W : Type 0}
    → Callbacks W
    → ℕ
    → SharedFixtureRunGate
    → SharedFixtureRegistry
    → Option (List Bytes)
    → Thread W
    → Torn W
unfolding has_run collect_work run_work set_teardown push_error no_session
teardown_shared_fixtures {W} calls caller gate reg errors t =
    let (entries, work) = collect_work 0 reg.entries in
    let begun : Torn W = record {
      ok = true;
      reg = set_teardown true (record reg { entries = entries });
      errors = errors;
      thread = t;
    } in
    let torn = run_work calls work begun in
    let refused : Torn W = record {
      ok = false;
      reg = reg;
      errors = push_error no_session errors;
      thread = t;
    } in
    if has_run caller gate then record torn { reg = set_teardown false torn.reg } else refused
