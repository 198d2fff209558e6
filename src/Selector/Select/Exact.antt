-- ===== src/Selector/Select/Exact.antt =====
-- A selection by `--run`: a name in full goes before the end of a name, and one case is run.
use gentest.Base.{
  ℕ, ◌+◌, ◌≡◌, refl, sym, ap, subst, ◌∙◌, ◌≢◌, ◌⊎◌, inl, inr, Bool, false, not, ◌&&◌, some, List,
  [], ◌∷◌, Bytes, bytes_eq, arith, ◌==◌, if◌then◌else◌, if-cases, is_empty, Bool-cases,
}
use gentest.Cases.{Case}
use gentest.Options.{CliOptions, KindFilter}
use gentest.Selector.Select.{
  SelectionStatus, ok, SelectionResult, Picked, stop, found, indices, test_at, unique_match,
  ends_with, pick, pick_by, pick_exact, without_death, narrow, select_cases, case_matches_kind,
}
use gentest.Selector.Select.Indices.{contains, contains-indices}
use gentest.Selector.Select.Kinds.{pick-ne, death_status-ne, empty_status-ne}

-- Exactly the index `i` passes the test.
abbrev pub OnlyAt : (Case → Bool) → List Case → ℕ → Type 0
OnlyAt p cases i = (j : ℕ) → test_at p cases j ≡ (j == i)

abbrev pub Nowhere : (Case → Bool) → List Case → Type 0
Nowhere p cases = (j : ℕ) → test_at p cases j ≡ false

-- The index that a name chooses.
abbrev pub Chooses : Bytes → KindFilter → List Case → ℕ → Type 0
Chooses exact kind cases i =
    OnlyAt (λ c. bytes_eq c.name exact && case_matches_kind c kind) cases i
    ⊎ (Nowhere (λ c. bytes_eq c.name exact) cases
        × OnlyAt (λ c. ends_with c.name exact && case_matches_kind c kind) cases i)

indices-at :
    (p : Case → Bool) (cases : List Case) (j : ℕ)
    → test_at p cases j ≡ contains j (indices p 0 cases)
indices-at p cases j =
    let e : 0 + j ≡ j = omega arith in
    sym (contains-indices p 0 j cases) ∙ ap (λ k. contains k (indices p 0 cases)) e

only_at :
    (p : Case → Bool) (cases : List Case) (i : ℕ) → indices p 0 cases ≡ i ∷ [] → OnlyAt p cases i
only_at p cases i h j = indices-at p cases j ∙ ap (contains j) h ∙ ground arith

nowhere : (p : Case → Bool) (cases : List Case) → indices p 0 cases ≡ [] → Nowhere p cases
nowhere p cases h j = indices-at p cases j ∙ ap (contains j) h

-- What a name finds is a list of one index.
abbrev Finds : Bytes → KindFilter → List Case → Picked → Type 0
Finds exact kind cases (stop s l) = Unit {0}
Finds exact kind cases (found is) = (i : ℕ) × (is ≡ i ∷ []) × Chooses exact kind cases i

unique_match-Finds :
    (exact : Bytes) (kind : KindFilter) (cases : List Case) (is : List ℕ)
    → ((i : ℕ) → is ≡ i ∷ [] → Chooses exact kind cases i)
    → Finds exact kind cases (unique_match is)
unfolding unique_match
unique_match-Finds exact kind cases [] h = tt
unique_match-Finds exact kind cases (i ∷ []) h = (i, refl, h i refl)
unique_match-Finds exact kind cases (i ∷ j ∷ is) h = tt

empty_list : (is : List ℕ) → not (is_empty is) ≡ false → is ≡ []
empty_list [] h = refl
empty_list (i ∷ is) h = cc

pick_exact-Finds :
    (cases : List Case) (kind : KindFilter) (exact : Bytes)
    → Finds exact kind cases (pick_exact cases kind exact)
unfolding pick_exact
pick_exact-Finds cases kind exact =
    if-cases (Finds exact kind cases)
      (not (is_empty (indices (λ c. bytes_eq c.name exact) 0 cases)))
      (unique_match (indices (λ c. bytes_eq c.name exact && case_matches_kind c kind) 0 cases))
      (if is_empty (indices (λ c. ends_with c.name exact) 0 cases)
        then stop SelectionStatus.case_not_found []
        else unique_match
            (indices (λ c. ends_with c.name exact && case_matches_kind c kind) 0 cases))
      (λ e. unique_match-Finds exact kind cases _ λ i h. inl (only_at _ cases i h))
      λ e.
        if-cases (Finds exact kind cases) (is_empty (indices (λ c. ends_with c.name exact) 0 cases))
          (stop SelectionStatus.case_not_found [])
          (unique_match (indices (λ c. ends_with c.name exact && case_matches_kind c kind) 0 cases))
          (λ f. tt)
          λ f.
            unique_match-Finds exact kind cases _
              λ i h. inr (nowhere _ cases (empty_list _ e), only_at _ cases i h)

-- Narrowing one index leaves it or nothing.
abbrev Keeps : ℕ → SelectionResult → Type 0
Keeps i r = r.status ≡ ok → r.idxs ≡ i ∷ []

without_death-Keeps :
    {D : Type 0} (cases : List Case) (opt : CliOptions D) (b : Bool) (i : ℕ)
    → Keeps i (without_death cases opt b (i ∷ []))
unfolding without_death
without_death-Keeps cases opt b i s = ground (arith, death_status-ne opt.run_exact)

narrow-Keeps :
    {D : Type 0} (cases : List Case) (opt : CliOptions D) (b : Bool) (i : ℕ)
    → Keeps i (narrow cases opt b (found (i ∷ [])))
unfolding narrow
narrow-Keeps cases opt b i =
    let here = test_at (λ c. case_matches_kind c opt.kind) cases i in
    elim (Bool-cases here) [
      | inl e ↦ rw e (without_death-Keeps cases opt b i)
      | inr e ↦ rw e (λ s. absurd (empty_status-ne opt.filter_pat opt.kind s))
    ]

stop-Keeps :
    {D : Type 0} (cases : List Case) (opt : CliOptions D) (b : Bool) (s : SelectionStatus)
    (l : List ℕ)
    → (narrow cases opt b (stop s l)).status ≡ s
unfolding narrow
stop-Keeps cases opt b s l = refl

run-Chooses :
    {D : Type 0} (cases : List Case) (opt : CliOptions D) (exact : Bytes) (b : Bool) (p : Picked)
    → Finds exact opt.kind cases p
    → ((s : SelectionStatus) (l : List ℕ) → p ≡ stop s l → s ≢ ok)
    → (narrow cases opt b p).status ≡ ok
    → (i : ℕ) × ((narrow cases opt b p).idxs ≡ i ∷ []) × Chooses exact opt.kind cases i
run-Chooses cases opt exact b (stop s l) h n e =
    absurd (n s l refl (sym (stop-Keeps cases opt b s l) ∙ e))
run-Chooses cases opt exact b (found is) (i, at, chosen) n e = (
  i,
  subst (λ l. Keeps i (narrow cases opt b (found l))) (sym at) (narrow-Keeps cases opt b i) e,
  chosen,
)

-- With `--run`, a selection that is ok is one case: the only one of its kind with that name in full,
-- or, where no case of any kind has that name in full, the only one of its kind with a name that
-- ends so.
pub select_cases_run :
    {D : Type 0} (cases : List Case) (opt : CliOptions D) (exact : Bytes)
    → opt.run_exact ≡ some exact
    → (select_cases cases opt).status ≡ ok
    → (i : ℕ) × ((select_cases cases opt).idxs ≡ i ∷ []) × Chooses exact opt.kind cases i
unfolding select_cases pick
select_cases_run cases opt exact h =
    run-Chooses cases opt exact _ (pick cases opt)
      (subst (λ r. Finds exact opt.kind cases (pick_by cases opt.kind r opt.filter_pat)) (sym h)
        (pick_exact-Finds cases opt.kind exact))
      (pick-ne cases opt)
