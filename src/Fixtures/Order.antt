-- ===== src/Fixtures/Order.antt =====
-- `shared_fixture_order_less` of src/runner_fixture_runtime.cpp is a strict order of the entries by
-- their keys.
use gentest.Base.{◌≡◌, ◌⊎◌, ◌↔◌, true, false, [], ◌∷◌, Bytes, bytes_eq, bytes_eq_iff, arith, refl}
use gentest.Results.Execute.{SharedFixtureScope, suite, global}
use gentest.Fixtures.{
  SharedFixtureEntry, bytes_lt, shared_fixture_scope_rank, same_scope, shared_fixture_order_less,
}

pub same_scope_iff : (a b : SharedFixtureScope) → (same_scope a b ≡ true) ↔ (a ≡ b)
unfolding same_scope shared_fixture_scope_rank
same_scope_iff suite suite = ground arith
same_scope_iff suite global = ground arith
same_scope_iff global suite = ground arith
same_scope_iff global global = ground arith

bytes_lt_self : (s : Bytes) → bytes_lt s s ≡ false
unfolding bytes_lt
bytes_lt_self [] = refl
bytes_lt_self (c ∷ s) = ground (arith, bytes_lt_self s)

bytes_lt_irreflexive : (s t : Bytes) → s ≡ t → bytes_lt s t ≡ false
bytes_lt_irreflexive s t h = rw h (bytes_lt_self t)

bytes_lt_trans : (s t u : Bytes) → bytes_lt s t ≡ true → bytes_lt t u ≡ true → bytes_lt s u ≡ true
unfolding bytes_lt
bytes_lt_trans s t [] h k = ground arith
bytes_lt_trans s [] (e ∷ u) h k = ground arith
bytes_lt_trans [] (d ∷ t) (e ∷ u) h k = refl
bytes_lt_trans (c ∷ s) (d ∷ t) (e ∷ u) h k = ground (arith, bytes_lt_trans s t u)

bytes_lt_total : (s t : Bytes) → bytes_eq s t ≡ false → bytes_lt s t ≡ false → bytes_lt t s ≡ true
unfolding bytes_lt bytes_eq
bytes_lt_total [] [] h k = ground arith
bytes_lt_total [] (d ∷ t) h k = ground arith
bytes_lt_total (c ∷ s) [] h k = ground arith
bytes_lt_total (c ∷ s) (d ∷ t) h k = ground (arith, bytes_lt_total s t)

-- The same name, suite and scope.
abbrev pub SameKey : SharedFixtureEntry → SharedFixtureEntry → Type 0
SameKey a b = (a.fixture_name ≡ b.fixture_name) × (a.suite ≡ b.suite) × (a.scope ≡ b.scope)

scope_rank-injective :
    (a b : SharedFixtureScope)
    → same_scope a b ≡ false
    → shared_fixture_scope_rank a ≡ shared_fixture_scope_rank b
    → ⊥
unfolding same_scope
scope_rank-injective a b h k = ground arith

pub order_less-irreflexive :
    (a b : SharedFixtureEntry) → SameKey a b → shared_fixture_order_less a b ≡ false
unfolding shared_fixture_order_less
order_less-irreflexive a b (n, s, c) = ground (
  arith,
  (bytes_eq_iff a.fixture_name b.fixture_name).1 n,
  (same_scope_iff a.scope b.scope).1 c,
  bytes_lt_irreflexive a.suite b.suite s,
)

pub order_less_trans :
    (a b c : SharedFixtureEntry)
    → shared_fixture_order_less a b ≡ true
    → shared_fixture_order_less b c ≡ true
    → shared_fixture_order_less a c ≡ true
unfolding shared_fixture_order_less same_scope
order_less_trans a b c h k = ground (
  arith,
  bytes_lt_trans a.fixture_name b.fixture_name c.fixture_name,
  bytes_lt_trans a.suite b.suite c.suite,
  bytes_lt_irreflexive a.fixture_name c.fixture_name,
  bytes_eq_iff a.fixture_name b.fixture_name,
  bytes_eq_iff b.fixture_name c.fixture_name,
  bytes_eq_iff a.fixture_name c.fixture_name,
)

pub order_less_total :
    (a b : SharedFixtureEntry)
    → shared_fixture_order_less a b ≡ false
    → (shared_fixture_order_less b a ≡ true) ⊎ SameKey a b
unfolding shared_fixture_order_less
order_less_total a b h = ground (
  arith,
  bytes_eq_iff a.fixture_name b.fixture_name,
  bytes_eq_iff b.fixture_name a.fixture_name,
  bytes_eq_iff a.suite b.suite,
  same_scope_iff a.scope b.scope,
  same_scope_iff b.scope a.scope,
  scope_rank-injective a.scope b.scope,
  bytes_lt_total a.fixture_name b.fixture_name,
  bytes_lt_total a.suite b.suite,
)
