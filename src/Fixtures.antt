-- ===== src/Fixtures.antt =====
-- The data of src/runner_fixture_runtime.cpp and src/runner_fixture_runtime.h. Addresses of
-- fixtures and of the three callbacks are numbers, with `none` for the null pointer, and threads are
-- numbers, with `none` for `std::thread::id{}`.
pub mod Order
pub mod Registration
pub mod Gate
pub mod Phase
pub mod Setup
pub mod Teardown
pub mod Lookup
pub mod Session
use gentest.Base.{
  ℕ, Bool, true, false, ◌&&◌, Option, none, some, List, Bytes, bytes_eq, ◌==◌, if◌then◌else◌, ltb,
  ◌∷◌, [],
}
use gentest.Results.Execute.{SharedFixtureScope, suite, global}

pub record SharedFixtureEntry : Type 0 where
  pub fixture_name : Bytes
  pub suite : Bytes
  pub scope : SharedFixtureScope
  pub shared_instance : Option ℕ
  pub initialized : Bool
  pub initializing : Bool
  pub failed : Bool
  pub error : Bytes
  pub create : Option ℕ
  pub setup : Option ℕ
  pub teardown : Option ℕ

pub record SharedFixtureRegistry : Type 0 where
  pub entries : List SharedFixtureEntry
  pub teardown_in_progress : Bool
  pub registration_error : Bool
  pub registration_errors : List Bytes

pub record SharedFixtureRunGate : Type 0 where
  pub active : Bool
  pub owner : Option ℕ

pub record SharedFixtureRuntimeSession : Type 0 where
  pub owns_gate : Bool
  pub gate_rejected : Bool
  pub owner_thread : Option ℕ

-- `==` on pointers and on thread ids.
unfoldable pub same_address : Option ℕ → Option ℕ → Bool
same_address none none = true
same_address none (some b) = false
same_address (some a) none = false
same_address (some a) (some b) = a == b

unfoldable pub shared_fixture_scope_rank : SharedFixtureScope → ℕ
shared_fixture_scope_rank suite = 0
shared_fixture_scope_rank global = 1

-- `==` on the scopes.
unfoldable pub same_scope : SharedFixtureScope → SharedFixtureScope → Bool
unfolding shared_fixture_scope_rank
same_scope a b = shared_fixture_scope_rank a == shared_fixture_scope_rank b

-- `<` on std::string.
unfoldable pub bytes_lt : Bytes → Bytes → Bool
bytes_lt s [] = false
bytes_lt [] (d ∷ t) = true
bytes_lt (c ∷ s) (d ∷ t) =
    let rest = bytes_lt s t in if ltb c d then true else if c == d then rest else false

unfoldable pub shared_fixture_order_less : SharedFixtureEntry → SharedFixtureEntry → Bool
unfolding bytes_lt shared_fixture_scope_rank same_scope
shared_fixture_order_less lhs rhs =
    if bytes_eq lhs.fixture_name rhs.fixture_name
    then (if same_scope lhs.scope rhs.scope
        then bytes_lt lhs.suite rhs.suite
        else ltb (shared_fixture_scope_rank lhs.scope) (shared_fixture_scope_rank rhs.scope))
    else bytes_lt lhs.fixture_name rhs.fixture_name
