-- ===== src/Plan/Build/Grouping.antt =====
-- The builders of a plan: what they hold, and how it is grouped.
use mathlib.Core.List.Perm
use mathlib.Core.List.{perm_middle, append_assoc, append-nil}
use gentest.Base.{
  ℕ, ◌≡◌, refl, sym, ◌⊎◌, inl, inr, some, List, [], ◌∷◌, ◌++◌, Perm, Bytes, get_elem?, All,
  All-append, All-All,
}
use gentest.Cases.{Case, FixtureLifetime, no_fixture, member_ephemeral, member_suite, member_global}
use gentest.Plan.Table.{Table, empty_table}
use gentest.Plan.Table.Upsert.{
  upsert, Agrees, empty-Agrees, add_or_update-entries, add_or_update-Agrees, upsert-All, Distinct,
  upsert-Distinct, concat_map, upsert-perm,
}
use gentest.Plan.Build.{
  FixtureGroupPlan, SuitePlanBuilder, append_fixture_group_case, push_idx, new_builder, place,
}

abbrev fixture_of : FixtureGroupPlan → Bytes
fixture_of g = g.fixture

abbrev suite_of : SuitePlanBuilder → Bytes
suite_of b = b.suite

abbrev pub group_idxs : List FixtureGroupPlan → List ℕ
group_idxs = concat_map (λ g. g.idxs)

abbrev pub builder_idxs : SuitePlanBuilder → List ℕ
builder_idxs b =
    b.free_like ++ (group_idxs b.suite_groups.entries ++ group_idxs b.global_groups.entries)

abbrev pub IsFree : FixtureLifetime → Type 0
IsFree lifetime = (lifetime ≡ no_fixture) ⊎ (lifetime ≡ member_ephemeral)

-- The index of a case of this suite, of which `P` holds.
abbrev pub Of : List Case → Bytes → (Case → Type 0) → ℕ → Type 0
Of cases suite P i = (t : Case) × (get_elem? cases i ≡ some t) × (t.suite ≡ suite) × P t

-- All cases of a group have its suite, its fixture and its lifetime.
abbrev pub Fits : List Case → Bytes → FixtureLifetime → FixtureGroupPlan → Type 0
Fits cases suite lifetime g =
    (g.fixture_lifetime ≡ lifetime)
    × All (Of cases suite (λ t. (t.fixture ≡ g.fixture) × (t.fixture_lifetime ≡ lifetime))) g.idxs

-- Each list of a builder holds what its name says, and no fixture has two groups in one list.
pub record IsGrouped (cases : List Case) (b : SuitePlanBuilder) : Type 0 where
  pub free : All (Of cases b.suite (λ t. IsFree t.fixture_lifetime)) b.free_like
  pub suites : All (Fits cases b.suite member_suite) b.suite_groups.entries
  pub globals : All (Fits cases b.suite member_global) b.global_groups.entries
  pub suite_names : Distinct fixture_of b.suite_groups.entries
  pub global_names : Distinct fixture_of b.global_groups.entries
  pub suite_map : Agrees fixture_of b.suite_groups
  pub global_map : Agrees fixture_of b.global_groups

pub new_builder-IsGrouped :
    (cases : List Case) (suite : Bytes) → IsGrouped cases (new_builder suite)
unfolding new_builder empty_table
new_builder-IsGrouped cases suite = record {
  free = tt;
  suites = tt;
  globals = tt;
  suite_names = tt;
  global_names = tt;
  suite_map = empty-Agrees fixture_of;
  global_map = empty-Agrees fixture_of;
}

module _ (cases : List Case) (i : ℕ) (t : Case) (at : get_elem? cases i ≡ some t) where
  group-entries :
      (g : Table FixtureGroupPlan)
      → Agrees fixture_of g
      → (append_fixture_group_case t.fixture t.fixture_lifetime i g).entries
        ≡ upsert fixture_of t.fixture
            (record { fixture = t.fixture; fixture_lifetime = t.fixture_lifetime; idxs = i ∷ [] })
            (push_idx i)
            g.entries
  unfolding append_fixture_group_case
  group-entries g a = add_or_update-entries fixture_of t.fixture _ (push_idx i) g a

  group-Fits :
      (lifetime : FixtureLifetime) (suite : Bytes) (g : Table FixtureGroupPlan)
      → t.fixture_lifetime ≡ lifetime
      → t.suite ≡ suite
      → Agrees fixture_of g
      → All (Fits cases suite lifetime) g.entries
      → All
          (Fits cases suite lifetime)
          (append_fixture_group_case t.fixture t.fixture_lifetime i g).entries
  group-Fits lifetime suite g same within a h = rw (group-entries g a) (
      upsert-All fixture_of (Fits cases suite lifetime) t.fixture _ (push_idx i) g.entries
        (same, ((t, at, within, (refl, same)), tt))
        (λ e name fits.
          (fits.0, All-append _ e.idxs (i ∷ []) fits.1 ((t, at, within, (sym name, same)), tt)))
        h)

  group-Distinct :
      (g : Table FixtureGroupPlan)
      → Agrees fixture_of g
      → Distinct fixture_of g.entries
      → Distinct fixture_of (append_fixture_group_case t.fixture t.fixture_lifetime i g).entries
  group-Distinct g a h =
      rw (group-entries g a)
        (upsert-Distinct fixture_of t.fixture _ (push_idx i) g.entries refl (λ e. refl) h)

  group-Agrees :
      (g : Table FixtureGroupPlan)
      → Agrees fixture_of g
      → Agrees fixture_of (append_fixture_group_case t.fixture t.fixture_lifetime i g)
  unfolding append_fixture_group_case
  group-Agrees g a = add_or_update-Agrees fixture_of t.fixture _ (push_idx i) g refl (λ e. refl) a

  group-perm :
      (g : Table FixtureGroupPlan)
      → Agrees fixture_of g
      → Perm
          (group_idxs (append_fixture_group_case t.fixture t.fixture_lifetime i g).entries)
          (i ∷ group_idxs g.entries)
  group-perm g a = rw (group-entries g a) (
      upsert-perm fixture_of (λ e. Unit) (λ e. e.idxs) i t.fixture _ (push_idx i) g.entries
        (Perm.refl _) (λ e u. rw append-nil at (perm_middle {a = i} e.idxs []))
        (All-All _ g.entries (λ e. tt)))

  free-IsGrouped :
      (b : SuitePlanBuilder)
      → IsFree t.fixture_lifetime
      → t.suite ≡ b.suite
      → IsGrouped cases b
      → IsGrouped cases (record b { free_like = b.free_like ++ i ∷ [] })
  free-IsGrouped b lone same v = record {
    free = All-append _ b.free_like (i ∷ []) v.free ((t, at, same, lone), tt);
    suites = v.suites;
    globals = v.globals;
    suite_names = v.suite_names;
    global_names = v.global_names;
    suite_map = v.suite_map;
    global_map = v.global_map;
  }

  pub place-IsGrouped :
      (lifetime : FixtureLifetime) (b : SuitePlanBuilder)
      → t.fixture_lifetime ≡ lifetime
      → t.suite ≡ b.suite
      → IsGrouped cases b
      → IsGrouped cases (place lifetime t i b)
  unfolding place
  place-IsGrouped no_fixture b e same v = free-IsGrouped b (inl e) same v
  place-IsGrouped member_ephemeral b e same v = free-IsGrouped b (inr e) same v
  place-IsGrouped member_suite b e same v = record {
    free = v.free;
    suites = group-Fits member_suite b.suite b.suite_groups e same v.suite_map v.suites;
    globals = v.globals;
    suite_names = group-Distinct b.suite_groups v.suite_map v.suite_names;
    global_names = v.global_names;
    suite_map = group-Agrees b.suite_groups v.suite_map;
    global_map = v.global_map;
  }
  place-IsGrouped member_global b e same v = record {
    free = v.free;
    suites = v.suites;
    globals = group-Fits member_global b.suite b.global_groups e same v.global_map v.globals;
    suite_names = v.suite_names;
    global_names = group-Distinct b.global_groups v.global_map v.global_names;
    suite_map = v.suite_map;
    global_map = group-Agrees b.global_groups v.global_map;
  }

  free-perm : (xs rest : List ℕ) → Perm ((xs ++ i ∷ []) ++ rest) (i ∷ (xs ++ rest))
  free-perm xs rest = rw append_assoc (perm_middle xs rest)

  pub place-perm :
      (lifetime : FixtureLifetime) (b : SuitePlanBuilder)
      → IsGrouped cases b
      → Perm (builder_idxs (place lifetime t i b)) (i ∷ builder_idxs b)
  unfolding place
  place-perm no_fixture b v = free-perm b.free_like _
  place-perm member_ephemeral b v = free-perm b.free_like _
  place-perm member_suite b v =
      Perm.trans
        (Perm.append (Perm.refl b.free_like)
          (Perm.append (group-perm b.suite_groups v.suite_map) (Perm.refl _)))
        (perm_middle b.free_like _)
  place-perm member_global b v =
      Perm.trans
        (Perm.append (Perm.refl b.free_like) (
          Perm.trans
            (Perm.append (Perm.refl (group_idxs b.suite_groups.entries))
              (group-perm b.global_groups v.global_map))
            (perm_middle (group_idxs b.suite_groups.entries) _)))
        (perm_middle b.free_like _)

  pub place-suite :
      (lifetime : FixtureLifetime) (b : SuitePlanBuilder) → (place lifetime t i b).suite ≡ b.suite
  unfolding place
  place-suite no_fixture b = refl
  place-suite _ b = refl
