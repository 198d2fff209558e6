-- ===== src/Plan/Build.antt =====
-- `build_suite_execution_plan` of src/runner_test_plan.cpp.
pub mod Grouping
pub mod Suites
use Prim.Native.Nat.{bit_xor}
use gentest.Base.{
  ℕ, ◌+◌, ◌*◌, ◌%◌, ◌^◌, ◌≤◌, Bool, true, false, Option, none, some, List, [], ◌∷◌, ◌++◌, map, Perm,
  Bytes, if◌then◌else◌, leb, length, get_elem?,
}
use gentest.Cases.{Case, FixtureLifetime, no_fixture, member_ephemeral, member_suite, member_global}
use gentest.Plan.Table.{Table, empty_table, add_or_update}

pub record FixtureGroupPlan : Type 0 where
  pub fixture : Bytes
  pub fixture_lifetime : FixtureLifetime
  pub idxs : List ℕ

pub record SuiteExecutionPlan : Type 0 where
  pub suite : Bytes
  pub free_like : List ℕ
  pub suite_groups : List FixtureGroupPlan
  pub global_groups : List FixtureGroupPlan

-- A plan being built, each list of groups with its map.
pub record SuitePlanBuilder : Type 0 where
  pub suite : Bytes
  pub free_like : List ℕ
  pub suite_groups : Table FixtureGroupPlan
  pub global_groups : Table FixtureGroupPlan

-- std::hash, and std::shuffle under a std::mt19937_64 of a given seed, which permutes its range.
pub record Shuffling : Type 0 where
  pub hash : Bytes → ℕ
  pub shuffle : ℕ → List ℕ → List ℕ
  pub shuffle-perm : (seed : ℕ) (order : List ℕ) → Perm (shuffle seed order) order

abbrev pub push_idx : ℕ → FixtureGroupPlan → FixtureGroupPlan
push_idx idx group = record group { idxs = group.idxs ++ idx ∷ [] }

unfoldable pub append_fixture_group_case :
    Bytes → FixtureLifetime → ℕ → Table FixtureGroupPlan → Table FixtureGroupPlan
append_fixture_group_case fixture lifetime idx groups =
    add_or_update fixture
      (record { fixture = fixture; fixture_lifetime = lifetime; idxs = idx ∷ [] }) (push_idx idx)
      groups

unfoldable pub new_builder : Bytes → SuitePlanBuilder
new_builder suite = record {
  suite = suite;
  free_like = [];
  suite_groups = empty_table;
  global_groups = empty_table;
}

-- Where a case goes within its suite.
unfoldable pub place : FixtureLifetime → Case → ℕ → SuitePlanBuilder → SuitePlanBuilder
unfolding append_fixture_group_case
place no_fixture t i builder = record builder { free_like = builder.free_like ++ i ∷ [] }
place member_ephemeral t i builder = record builder { free_like = builder.free_like ++ i ∷ [] }
place member_suite t i builder = record builder {
  suite_groups = append_fixture_group_case t.fixture t.fixture_lifetime i builder.suite_groups;
}
place member_global t i builder = record builder {
  global_groups = append_fixture_group_case t.fixture t.fixture_lifetime i builder.global_groups;
}

abbrev pub file_case : Case → ℕ → SuitePlanBuilder → SuitePlanBuilder
file_case t i = place t.fixture_lifetime t i

-- One round of the loop over the indices.
unfoldable pub add_case : Case → ℕ → Table SuitePlanBuilder → Table SuitePlanBuilder
unfolding place new_builder
add_case t i builders =
    add_or_update t.suite (file_case t i (new_builder t.suite)) (file_case t i) builders

-- An index out of range, which the selection never has, is passed over.
unfoldable pub add_at : Option Case → ℕ → Table SuitePlanBuilder → Table SuitePlanBuilder
unfolding add_case
add_at none i builders = builders
add_at (some t) i builders = add_case t i builders

unfoldable pub add_cases : List Case → List ℕ → Table SuitePlanBuilder → Table SuitePlanBuilder
unfolding add_at
add_cases cases [] builders = builders
add_cases cases (i ∷ idxs) builders = add_cases cases idxs (add_at (get_elem? cases i) i builders)

module _ (s : Shuffling) where
  open s use {hash, shuffle}

  unfoldable pub shuffle_with_seed : List ℕ → ℕ → List ℕ
  shuffle_with_seed order seed = if leb (length order) 1 then order else shuffle seed order

  abbrev pub shuffle_groups : ℕ → List FixtureGroupPlan → List FixtureGroupPlan
  shuffle_groups suite_seed [] = []
  shuffle_groups suite_seed (group ∷ groups) =
      record group {
        idxs = shuffle_with_seed group.idxs ((suite_seed + hash group.fixture) % 2 ^ 64);
      }
      ∷ shuffle_groups suite_seed groups

  -- The loop over the builders, for one of them.
  unfoldable pub finish_plan : Bool → ℕ → SuitePlanBuilder → SuiteExecutionPlan
  unfolding shuffle_with_seed
  finish_plan true base_seed builder =
      let suite_seed = bit_xor base_seed (hash builder.suite * 2 % 2 ^ 64) in
      record {
        suite = builder.suite;
        free_like = shuffle_with_seed builder.free_like suite_seed;
        suite_groups = shuffle_groups suite_seed builder.suite_groups.entries;
        global_groups = shuffle_groups suite_seed builder.global_groups.entries;
      }
  finish_plan false base_seed builder = record {
    suite = builder.suite;
    free_like = builder.free_like;
    suite_groups = builder.suite_groups.entries;
    global_groups = builder.global_groups.entries;
  }

  unfoldable pub build_suite_execution_plan :
      List Case → List ℕ → Bool → ℕ → List SuiteExecutionPlan
  unfolding add_cases finish_plan
  build_suite_execution_plan cases idxs do_shuffle base_seed =
      map (finish_plan do_shuffle base_seed) (add_cases cases idxs empty_table).entries
