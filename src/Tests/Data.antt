-- ===== src/Tests/Data.antt =====
-- Four test cases, and instances of what the model takes as given: times as natural numbers, a
-- process without a terminal, a reversing shuffle and a runtime whose tests are told by their names.
use mathlib.Core.List
use mathlib.Core.List.Perm
use gentest.Base.{
  ℕ, ◌+◌, ◌==◌, true, false, Option, none, some, List, [], ◌∷◌, Bytes, codes, bytes_eq,
  if◌then◌else◌, length,
}
use gentest.Cases.{Case, FixtureLifetime, no_fixture, member_suite, member_global}
use gentest.Cli.Host.{Doubles, Process}
use gentest.Plan.Build.{Shuffling}
use gentest.Results.Model.{
  InvokeResult, InvokeException, TestContextInfo, TestCounters, TestRunContext, user,
}
use gentest.Results.Execute.{Runtime, Run, SharedFixtureScope}

abbrev pub case_of : Bytes → Bytes → FixtureLifetime → Bytes → List Bytes → Case
case_of name suite lifetime fixture tags = record {
  name = name;
  file = codes "t.cpp";
  line = 7;
  is_benchmark = false;
  is_jitter = false;
  is_baseline = false;
  tags = tags;
  requirements = [];
  skip_reason = [];
  should_skip = false;
  fixture = fixture;
  fixture_lifetime = lifetime;
  suite = suite;
  is_async = false;
  items_per_call = 1;
  owner = [];
}

abbrev pub adds : Case
adds = case_of (codes "math/adds") (codes "math") no_fixture [] []

abbrev pub fails : Case
fails = case_of (codes "math/fails") (codes "math") member_suite (codes "Db") []

abbrev pub reads : Case
reads = case_of (codes "io/reads") (codes "io") member_global (codes "Disk") []

abbrev pub dies : Case
dies = case_of (codes "io/dies") (codes "io") no_fixture [] (codes "Death" ∷ [])

abbrev pub four : List Case
four = adds ∷ fails ∷ reads ∷ dies ∷ []

-- "5" is read as five, and nothing else is read.
abbrev pub whole : Doubles
whole = record {
  Double = ℕ;
  stod = λ s. if bytes_eq s (codes "5") then some (5, 1) else none;
  is_finite = λ t. true;
  is_negative = λ t. false;
  is_positive = λ t. if t == 0 then false else true;
  greater = λ a b. false;
  default_min_epoch_time = 0;
  default_min_total_time = 0;
  default_max_total_time = 1;
}

abbrev pub quiet : Process
quiet = record { env_value = λ name. []; stdout_is_tty = false; random_high = 3; random_low = 4 }

abbrev pub reversing : Shuffling
reversing = record {
  hash = length;
  shuffle = λ seed. List.reverse;
  shuffle-perm = λ seed order. List.reverse_perm order;
}

abbrev pub context : List Bytes → TestContextInfo
context failures = record {
  failures = failures;
  failure_locations = [];
  logs = [];
  event_lines = failures;
  event_kinds = [];
  runtime_skip_requested = false;
  runtime_skip_reason = [];
  runtime_skip_kind = user;
  xfail_requested = false;
  xfail_reason = [];
}

abbrev pub invocation : List Bytes → InvokeResult ℕ
invocation failures = record {
  ctxinfo = context failures;
  exception = InvokeException.no_exception;
  elapsed_s = 2;
  message = [];
}

-- "math/fails" records a failure; the global fixture is not available.
abbrev invoked : Case → InvokeResult ℕ
invoked test =
    if bytes_eq test.name (codes "math/fails")
    then invocation (codes "1 != 2" ∷ [])
    else invocation []

abbrev found_fixture : SharedFixtureScope → Option ℕ × Bytes
found_fixture SharedFixtureScope.suite = (some 64, [])
found_fixture SharedFixtureScope.global = (none, codes "no disk")

-- The world counts the calls of tests.
abbrev pub runtime : Runtime ℕ ℕ ℕ
runtime = record {
  no_time = 0;
  invoke_case_once = λ test ctx w. (invoked test, w + 1);
  get_shared_fixture = λ scope suite fixture w. (found_fixture scope, w);
}

abbrev pub zero_counters : TestCounters
zero_counters = record {
  total = 0;
  passed = 0;
  skipped = 0;
  blocked = 0;
  xfail = 0;
  xpass = 0;
  failed = 0;
  failures = 0;
}

abbrev pub reporting : TestRunContext ℕ
reporting = record {
  record_results = true;
  acc = some (record {
    report_items = [];
    failure_items = [];
    infra_errors = [];
    github_annotations = [];
  });
}

abbrev pub start : Run ℕ ℕ
start = record { world = 0; state = reporting; counters = zero_counters }
