-- ===== src/Tests/FixtureData.antt =====
-- A registry of two fixtures and callbacks of a small process.
use gentest.Base.{ℕ, true, false, Option, none, some, List, [], ◌∷◌, codes}
use gentest.Results.Execute.{SharedFixtureScope}
use gentest.Fixtures.{
  SharedFixtureEntry, SharedFixtureRegistry, SharedFixtureRunGate, SharedFixtureRuntimeSession,
}
use gentest.Fixtures.Phase.{Thrown, Called, Thread, Callbacks}
use gentest.Tests.Data.{context}

-- The fixture Db of the suite "math", created at address 10, and Disk, at address 11.
abbrev pub db : SharedFixtureEntry
db = record {
  fixture_name = codes "Db";
  suite = codes "math";
  scope = SharedFixtureScope.suite;
  shared_instance = none;
  initialized = false;
  initializing = false;
  failed = false;
  error = [];
  create = some 10;
  setup = some 1;
  teardown = some 2;
}

abbrev pub disk : SharedFixtureEntry
disk = record {
  fixture_name = codes "Disk";
  suite = [];
  scope = SharedFixtureScope.global;
  shared_instance = none;
  initialized = false;
  initializing = false;
  failed = false;
  error = [];
  create = some 11;
  setup = none;
  teardown = some 3;
}

abbrev pub two : SharedFixtureRegistry
two = record {
  entries = db ∷ disk ∷ [];
  teardown_in_progress = false;
  registration_error = false;
  registration_errors = [];
}

abbrev pub two_ready : SharedFixtureRegistry
two_ready = record two {
  entries =
      record db { shared_instance = some 10; initialized = true }
      ∷ record disk { shared_instance = some 11; initialized = true }
      ∷ [];
}

abbrev pub returns : Option ℕ → Called
returns address = record {
  ctx = context [];
  error = [];
  thrown = Thrown.nothing;
  returned = address;
}

-- The world is the list of the calls; a factory returns its own address.
abbrev pub logging : Callbacks (List ℕ)
logging = record {
  create = λ f suite t. (returns (some f), record t { world = f ∷ t.world });
  phase = λ f address t. (returns none, record t { world = f ∷ t.world });
}

abbrev pub thread : Thread (List ℕ)
thread = record { bench_error = []; world = [] }

abbrev pub held : SharedFixtureRunGate
held = record { active = true; owner = some 5 }

abbrev pub free : SharedFixtureRunGate
free = record { active = false; owner = none }

abbrev pub unowned : SharedFixtureRuntimeSession
unowned = record { owns_gate = false; gate_rejected = false; owner_thread = none }

abbrev pub owned : SharedFixtureRuntimeSession
owned = record { owns_gate = true; gate_rejected = false; owner_thread = some 5 }
