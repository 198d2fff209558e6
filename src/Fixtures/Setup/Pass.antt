-- ===== src/Fixtures/Setup/Pass.antt =====
-- The setup of the fixtures as a pass over the entries in order.
use gentest.Base.{ℕ, Bool, true, false, ◌&&◌, ◌||◌, Option, none, some, List, [], ◌∷◌, Bytes, codes}
use gentest.Fixtures.{SharedFixtureEntry}
use gentest.Fixtures.Phase.{Thread, Callbacks, format_fixture_error}
use gentest.Fixtures.Setup.{
  mark_initializing, allocation_failed, keep_instance, setup_failed, mark_initialized, allocate,
  run_setup, allocation_error,
}

-- A fixture after its setup callback.
abbrev pub concluded_as :
    {W : Type 0}
    → SharedFixtureEntry
    → (Bool × Bytes) × Thread W
    → (Bool × SharedFixtureEntry) × Thread W
concluded_as e ((true, error), t) = ((true, mark_initialized e), t)
concluded_as e ((false, error), t) =
    ((false, setup_failed (format_fixture_error (codes "setup") error) e), t)

-- A fixture after its setup, or its failure, and whether it succeeded.
abbrev pub settled_as :
    {W : Type 0}
    → Callbacks W
    → SharedFixtureEntry
    → (Option ℕ × Bytes) × Thread W
    → (Bool × SharedFixtureEntry) × Thread W
settled_as calls e ((none, error), t) =
    ((false, allocation_failed (allocation_error e.create error) e), t)
settled_as calls e ((some address, error), t) =
    concluded_as (keep_instance address e) (run_setup calls e.setup address t)

abbrev pub set_up :
    {W : Type 0}
    → Callbacks W
    → SharedFixtureEntry
    → Thread W
    → (Bool × SharedFixtureEntry) × Thread W
set_up calls e t = settled_as calls (mark_initializing e) (allocate calls e.create e.suite t)

-- All of them, in order, and whether all succeeded.
abbrev pub set_up_all :
    {W : Type 0}
    → Callbacks W
    → List SharedFixtureEntry
    → Thread W
    → (Bool × List SharedFixtureEntry) × Thread W
set_up_all calls [] t = ((true, []), t)
set_up_all calls (e ∷ es) t =
    let ((ok, e'), t') = set_up calls e t in
    let ((oks, es'), t'') = set_up_all calls es t' in ((ok && oks, e' ∷ es'), t'')

abbrev pub is_settled : SharedFixtureEntry → Bool
is_settled e = e.initialized || e.initializing || e.failed
