-- ===== src/Plan/Build/Suites.antt =====
-- The table of suites: what it holds, and that every selected case is in it once.
use mathlib.Core.List.Perm
use mathlib.Core.List.{perm_middle}
use gentest.Base.{
  ℕ, zero, suc, ◌≡◌, refl, subst, sym, ◌∙◌, some, List, [], ◌∷◌, ◌++◌, Perm, Bytes, arith,
  get_elem?, All, length, ◌<◌,
}
use gentest.Cases.{Case}
use gentest.Plan.Table.{Table, empty_table}
use gentest.Plan.Table.Upsert.{
  upsert, Agrees, empty-Agrees, add_or_update-entries, add_or_update-Agrees, upsert-All, Distinct,
  upsert-Distinct, concat_map, upsert-perm,
}
use gentest.Plan.Build.{SuitePlanBuilder, new_builder, file_case, add_case, add_at, add_cases}
use gentest.Plan.Build.Grouping.{
  builder_idxs, IsGrouped, new_builder-IsGrouped, place-IsGrouped, place-perm, place-suite,
}

abbrev pub suite_of : SuitePlanBuilder → Bytes
suite_of b = b.suite

-- The builders of a plan: no suite twice, and each of them grouped.
pub record IsPlanned (cases : List Case) (builders : Table SuitePlanBuilder) : Type 0 where
  pub names : Distinct suite_of builders.entries
  pub map_agrees : Agrees suite_of builders
  pub grouped : All (IsGrouped cases) builders.entries

module _ (cases : List Case) (i : ℕ) (t : Case) (at : get_elem? cases i ≡ some t) where
  new_builder-suite : (new_builder t.suite).suite ≡ t.suite
  unfolding new_builder
  new_builder-suite = refl

  fresh-suite : (file_case t i (new_builder t.suite)).suite ≡ t.suite
  fresh-suite =
      place-suite cases i t at t.fixture_lifetime (new_builder t.suite) ∙ new_builder-suite

  add_case-entries :
      (builders : Table SuitePlanBuilder)
      → IsPlanned cases builders
      → (add_case t i builders).entries
        ≡ upsert suite_of t.suite
            (file_case t i (new_builder t.suite))
            (file_case t i)
            builders.entries
  unfolding add_case
  add_case-entries builders v =
      add_or_update-entries suite_of t.suite _ (file_case t i) builders v.map_agrees

  add_case-IsPlanned :
      (builders : Table SuitePlanBuilder)
      → IsPlanned cases builders
      → IsPlanned cases (add_case t i builders)
  add_case-IsPlanned builders v = record {
    names = rw (add_case-entries builders v) (
        upsert-Distinct suite_of t.suite _ (file_case t i) builders.entries fresh-suite
          (place-suite cases i t at t.fixture_lifetime) v.names);
    map_agrees = agrees;
    grouped = rw (add_case-entries builders v) (
        upsert-All suite_of (IsGrouped cases) t.suite _ (file_case t i) builders.entries
          (place-IsGrouped cases i t at t.fixture_lifetime (new_builder t.suite) refl
            (sym new_builder-suite) (new_builder-IsGrouped cases t.suite))
          (λ b same. place-IsGrouped cases i t at t.fixture_lifetime b refl (sym same)) v.grouped);
  }
    where
      agrees : Agrees suite_of (add_case t i builders)
      agrees =
          unfold add_case in
          add_or_update-Agrees suite_of t.suite _ (file_case t i) builders fresh-suite
            (place-suite cases i t at t.fixture_lifetime) v.map_agrees

  new_builder-idxs : builder_idxs (new_builder t.suite) ≡ []
  unfolding new_builder empty_table
  new_builder-idxs = refl

  add_case-perm :
      (builders : Table SuitePlanBuilder)
      → IsPlanned cases builders
      → Perm
          (concat_map builder_idxs (add_case t i builders).entries)
          (i ∷ concat_map builder_idxs builders.entries)
  add_case-perm builders v = rw (add_case-entries builders v) (
      upsert-perm suite_of (IsGrouped cases) builder_idxs i t.suite _ (file_case t i)
        builders.entries
        (rw new_builder-idxs at (
          place-perm cases i t at t.fixture_lifetime (new_builder t.suite)
            (new_builder-IsGrouped cases t.suite)))
        (place-perm cases i t at t.fixture_lifetime) v.grouped)

-- Every index of the list is one of a case.
abbrev pub InRange : List Case → List ℕ → Type 0
InRange cases = All (λ i. i < length cases)

get_elem?-some :
    (cases : List Case) (i : ℕ) → i < length cases → (t : Case) × (get_elem? cases i ≡ some t)
get_elem?-some [] i h = absurd (omega arith)
get_elem?-some (t ∷ cases) zero h = (t, refl)
get_elem?-some (t ∷ cases) (suc i) h = get_elem?-some cases i (omega arith)

-- Filing every index of a list keeps the builders planned, and they hold those indices besides.
pub add_cases-IsPlanned :
    (cases : List Case) (idxs : List ℕ) (builders : Table SuitePlanBuilder)
    → InRange cases idxs
    → IsPlanned cases builders
    → IsPlanned cases (add_cases cases idxs builders)
      × Perm
          (concat_map builder_idxs (add_cases cases idxs builders).entries)
          (idxs ++ concat_map builder_idxs builders.entries)
unfolding add_cases
add_cases-IsPlanned cases [] builders h v = (v, Perm.refl _)
add_cases-IsPlanned cases (i ∷ idxs) builders h v =
    let (t, at) = get_elem?-some cases i h.0 in
    subst
      (λ o.
        IsPlanned cases (add_cases cases idxs (add_at o i builders))
        × Perm (concat_map builder_idxs (add_cases cases idxs (add_at o i builders)).entries)
            (i ∷ (idxs ++ concat_map builder_idxs builders.entries)))
      (sym at) (filed (λ b. add_cases-IsPlanned cases idxs b h.1) t at)
  where
    filed :
        ((b : Table SuitePlanBuilder)
          → IsPlanned cases b
          → IsPlanned cases (add_cases cases idxs b)
            × Perm
                (concat_map builder_idxs (add_cases cases idxs b).entries)
                (idxs ++ concat_map builder_idxs b.entries))
        → (t : Case) → get_elem? cases i ≡ some t
        → IsPlanned cases (add_cases cases idxs (add_case t i builders))
          × Perm
              (concat_map builder_idxs (add_cases cases idxs (add_case t i builders)).entries)
              (i ∷ (idxs ++ concat_map builder_idxs builders.entries))
    filed ih t at =
        let (planned, same) =
          ih (add_case t i builders) (add_case-IsPlanned cases i t at builders v) in
        (
          planned,
          Perm.trans same (
              Perm.trans (Perm.append (Perm.refl idxs) (add_case-perm cases i t at builders v))
                (perm_middle idxs _)),
        )

pub empty-IsPlanned : (cases : List Case) → IsPlanned cases empty_table
unfolding empty_table
empty-IsPlanned cases = record { names = tt; map_agrees = empty-Agrees suite_of; grouped = tt }
