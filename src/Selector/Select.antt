-- ===== src/Selector/Select.antt =====
-- `select_cases` of src/runner_selector.cpp. Each counted loop that pushes indices is `indices` or a
-- recursion on the indices; the two vectors that one loop fills are two calls.
pub mod Indices
pub mod Kinds
pub mod Filtered
pub mod Exact
use gentest.Base.{
  ℕ, zero, suc, ◌-◌, Bool, true, false, not, ◌&&◌, ◌||◌, Option, none, some, List, [], ◌∷◌, Bytes,
  bytes_eq, codes, ltb, if◌then◌else◌, length, get_elem?, drop, keep, is_empty,
}
use gentest.Cases.{Case}
use gentest.Options.{KindFilter, all, test, bench, jitter, CliOptions}
use gentest.Selector.Tags.{has_tag_ci}
use gentest.Selector.Wildcard.{wildcard_match}

pub data SelectionStatus : Type 0 where
  ok case_not_found kind_mismatch ambiguous filter_no_bench_match : SelectionStatus
  filter_no_jitter_match zero_selected death_excluded_exact death_excluded_all : SelectionStatus

pub record SelectionResult : Type 0 where
  pub status : SelectionStatus
  pub idxs : List ℕ
  pub ambiguous_matches : List ℕ
  pub test_idxs : List ℕ
  pub bench_idxs : List ℕ
  pub jitter_idxs : List ℕ
  pub has_selection : Bool
  pub filtered_death : ℕ

unfoldable pub case_is_test : Case → Bool
case_is_test c = not c.is_benchmark && not c.is_jitter

unfoldable pub case_matches_kind : Case → KindFilter → Bool
unfolding case_is_test
case_matches_kind c all = true
case_matches_kind c test = case_is_test c
case_matches_kind c bench = c.is_benchmark
case_matches_kind c jitter = c.is_jitter

-- std::string_view::ends_with behind the size guard.
unfoldable pub ends_with : Bytes → Bytes → Bool
ends_with name exact =
    if ltb (length name) (length exact)
    then false
    else bytes_eq (drop (length name - length exact) name) exact

unfoldable pub kind_to_string : KindFilter → Bytes
kind_to_string all = codes "all"
kind_to_string test = codes "test"
kind_to_string bench = codes "bench"
kind_to_string jitter = codes "jitter"

-- The indices, from `i` on, of the cases that pass a test.
unfoldable pub indices : (Case → Bool) → ℕ → List Case → List ℕ
indices p i [] = []
indices p i (c ∷ cases) = if p c then i ∷ indices p (suc i) cases else indices p (suc i) cases

-- A test of `cases[idx]`. An index out of range, which the code never has, passes no test.
unfoldable pub test_at : (Case → Bool) → List Case → ℕ → Bool
test_at p cases idx = elim (get_elem? cases idx) [ none ↦ false | some c ↦ p c ]

-- The indices so far, or a status with which the selection stops.
pub data Picked : Type 0 where
  stop : SelectionStatus → List ℕ → Picked
  found : List ℕ → Picked

-- The matches of the wanted kind: none, one, or too many.
unfoldable pub unique_match : List ℕ → Picked
unique_match [] = stop kind_mismatch []
unique_match (i ∷ []) = found (i ∷ [])
unique_match (i ∷ j ∷ more) = stop ambiguous (i ∷ j ∷ more)

-- `--run`: a name in full, and else the end of a name.
unfoldable pub pick_exact : List Case → KindFilter → Bytes → Picked
unfolding unique_match indices case_matches_kind ends_with
pick_exact cases kind exact =
    let suffix_matches = indices (λ c. ends_with c.name exact) 0 cases in
    let suffix_kind_matches =
      indices (λ c. ends_with c.name exact && case_matches_kind c kind) 0 cases in
    let exact_matches = indices (λ c. bytes_eq c.name exact) 0 cases in
    let exact_kind_matches =
      indices (λ c. bytes_eq c.name exact && case_matches_kind c kind) 0 cases in
    if not (is_empty exact_matches)
    then unique_match exact_kind_matches
    else if is_empty suffix_matches
    then stop case_not_found []
    else unique_match suffix_kind_matches

-- `none` is a match that ran out of fuel.
unfoldable pub matched : Option Bool → Bool
matched none = false
matched (some b) = b

-- `--run` wins over `--filter`; with neither, every case.
unfoldable pub pick_by : List Case → KindFilter → Option Bytes → Option Bytes → Picked
unfolding pick_exact matched
pick_by cases kind (some exact) filter_pat = pick_exact cases kind exact
pick_by cases kind none (some pattern) =
    found (indices (λ c. matched (wildcard_match c.name pattern)) 0 cases)
pick_by cases kind none none = found (indices (λ c. true) 0 cases)

unfoldable pub pick : {D : Type 0} → List Case → CliOptions D → Picked
unfolding pick_by
pick cases opt = pick_by cases opt.kind opt.run_exact opt.filter_pat

-- The status of an empty selection.
unfoldable pub empty_status : Option Bytes → KindFilter → SelectionStatus
empty_status (some pattern) bench = filter_no_bench_match
empty_status (some pattern) jitter = filter_no_jitter_match
empty_status _ _ = zero_selected

unfoldable pub nothing_left : {D : Type 0} → CliOptions D → SelectionStatus
unfolding empty_status
nothing_left opt = empty_status opt.filter_pat opt.kind

-- The cases that are no death tests, and how many are.
unfoldable pub drop_death : (ℕ → Bool) → List ℕ → List ℕ × ℕ
drop_death is_death [] = ([], 0)
drop_death is_death (idx ∷ idxs) =
    let (kept, filtered) = drop_death is_death idxs in
    if is_death idx then (kept, suc filtered) else (idx ∷ kept, filtered)

abbrev pub empty_result : SelectionStatus → List ℕ → Bool → ℕ → SelectionResult
empty_result status ambiguous_matches has_selection filtered_death = record {
  status = status;
  idxs = [];
  ambiguous_matches = ambiguous_matches;
  test_idxs = [];
  bench_idxs = [];
  jitter_idxs = [];
  has_selection = has_selection;
  filtered_death = filtered_death;
}

-- The three kinds of a selection that is complete.
unfoldable pub split_selected_cases : List Case → List ℕ → Bool → ℕ → SelectionResult
unfolding test_at
split_selected_cases cases idxs has_selection filtered_death = record {
  status = ok;
  idxs = idxs;
  ambiguous_matches = [];
  test_idxs =
      keep
        (λ idx.
          not (test_at (λ c. c.is_benchmark) cases idx)
          && not (test_at (λ c. c.is_jitter) cases idx))
        idxs;
  bench_idxs = keep (test_at (λ c. c.is_benchmark) cases) idxs;
  jitter_idxs =
      keep
        (λ idx.
          not (test_at (λ c. c.is_benchmark) cases idx) && test_at (λ c. c.is_jitter) cases idx)
        idxs;
  has_selection = has_selection;
  filtered_death = filtered_death;
}

abbrev pub is_some {ℓ} : {A : Type ℓ} → Option A → Bool
is_some none = false
is_some (some a) = true

abbrev pub death_status : Option Bytes → SelectionStatus
death_status (some exact) = death_excluded_exact
death_status none = death_excluded_all

-- The death tests go, unless they are asked for.
unfoldable pub without_death :
    {D : Type 0} → List Case → CliOptions D → Bool → List ℕ → SelectionResult
unfolding drop_death split_selected_cases test_at has_tag_ci
without_death cases opt has_selection idxs =
    let (kept, filtered) = drop_death (test_at (λ c. has_tag_ci c (codes "death")) cases) idxs in
    if opt.include_death
    then split_selected_cases cases idxs has_selection 0
    else if is_empty kept && ltb 0 filtered
    then empty_result (death_status opt.run_exact) [] has_selection filtered
    else split_selected_cases cases kept has_selection filtered

unfoldable pub narrow : {D : Type 0} → List Case → CliOptions D → Bool → Picked → SelectionResult
unfolding without_death nothing_left test_at case_matches_kind
narrow cases opt has_selection (stop status ambiguous_matches) =
    empty_result status ambiguous_matches has_selection 0
narrow cases opt has_selection (found idxs) =
    let kept = keep (test_at (λ c. case_matches_kind c opt.kind) cases) idxs in
    if is_empty kept
    then empty_result (nothing_left opt) [] has_selection 0
    else without_death cases opt has_selection kept

unfoldable pub select_cases : {D : Type 0} → List Case → CliOptions D → SelectionResult
unfolding narrow pick
select_cases cases opt =
    narrow cases opt (is_some opt.run_exact || is_some opt.filter_pat) (pick cases opt)
