-- ===== src/Selector/Select/Filtered.antt =====
-- A selection by `--filter`, or of all cases: which cases it holds.
use gentest.Base.{
  ℕ, ◌+◌, ◌≡◌, refl, sym, ap, subst, ◌∙◌, ◌⊎◌, ◌↔◌, Bool, true, false, not, ◌&&◌, ◌||◌, Option,
  none, some, List, [], ◌∷◌, Bytes, map, arith, if-cases, keep, is_empty, ltb, codes, get_elem?,
}
use gentest.Cases.{Case}
use gentest.Options.{CliOptions, KindFilter, all, test, bench, jitter}
use gentest.Selector.Wildcard.{wildcard_match}
use gentest.Selector.Wildcard.Spec.{Matches}
use gentest.Selector.Wildcard.Loop.{Starless, wildcard_match_iff}
use gentest.Selector.Tags.{lower, has_tag, has_tag_ci, iequals_ascii_iff}
use gentest.Selector.Select.{
  ok, SelectionResult, found, indices, test_at, matched, is_some, pick, pick_by, drop_death,
  split_selected_cases, without_death, narrow, select_cases, case_matches_kind, case_is_test,
  empty_result, death_status, nothing_left,
}
use gentest.Selector.Select.Indices.{
  contains, Increasing, indices-Increasing, contains-indices, keep-indices, indices-congr,
  test_at_lem, drop_death-keep,
}
use gentest.Selector.Select.Kinds.{death_status-ne, empty_status-ne}

-- A result that is ok holds these indices.
abbrev pub Chosen : List ℕ → SelectionResult → Type 0
Chosen xs r = r.status ≡ ok → r.idxs ≡ xs

abbrev pub survives : {D : Type 0} → CliOptions D → Case → Bool
survives opt c =
    case_matches_kind c opt.kind && (opt.include_death || not (has_tag_ci c (codes "death")))

zero_add : (j : ℕ) → 0 + j ≡ j
zero_add j = omega arith

module _ {D : Type 0} (cases : List Case) (opt : CliOptions D) (b : Bool) where
  without_death-Chosen :
      (p : Case → Bool)
      → Chosen
          (indices (λ c. p c && (opt.include_death || not (has_tag_ci c (codes "death")))) 0 cases)
          (without_death cases opt b (indices p 0 cases))
  unfolding without_death split_selected_cases
  without_death-Chosen p =
      if-cases (Chosen _) opt.include_death (split_selected_cases cases idxs b 0) _
        (λ e s. indices-congr p _ 0 cases λ c. ground arith)
        λ e.
          if-cases (Chosen _) (is_empty d.0 && ltb 0 d.1)
            (empty_result (death_status opt.run_exact) [] b d.1)
            (split_selected_cases cases d.0 b d.1)
            (λ all_gone s. absurd (death_status-ne opt.run_exact s))
            λ some_left s.
              drop_death-keep dead idxs
              ∙ keep-indices p _ (λ i. not (dead i)) 0 cases
                  λ j c g. rw (zero_add j, test_at_lem _ cases j c g) (ground arith)
    where
      idxs : List ℕ
      idxs = indices p 0 cases

      dead : ℕ → Bool
      dead = test_at (λ c. has_tag_ci c (codes "death")) cases

      d : List ℕ × ℕ
      d = drop_death dead idxs

  pub narrow-Chosen :
      (p : Case → Bool)
      → Chosen
          (indices (λ c. p c && survives opt c) 0 cases)
          (narrow cases opt b (found (indices p 0 cases)))
  unfolding narrow
  narrow-Chosen p =
      if-cases (Chosen _) (is_empty kept) (empty_result (nothing_left opt) [] b 0)
        (without_death cases opt b kept) (λ e s. absurd (empty_status-ne opt.filter_pat opt.kind s))
        λ e.
          rw
            (keep-indices p (λ c. case_matches_kind c opt.kind)
              (test_at (λ c. case_matches_kind c opt.kind) cases) 0 cases
              (λ j c g. rw (zero_add j) (test_at_lem _ cases j c g)))
            λ s.
              without_death-Chosen (λ c. p c && case_matches_kind c opt.kind) s
              ∙ indices-congr _ _ 0 cases (λ c. ground arith)
    where
      kept : List ℕ
      kept = keep (test_at (λ c. case_matches_kind c opt.kind) cases) (indices p 0 cases)

abbrev name_test : Option Bytes → Case → Bool
name_test none c = true
name_test (some pattern) c = matched (wildcard_match c.name pattern)

pick_by-none :
    (cases : List Case) (kind : KindFilter) (filter_pat : Option Bytes)
    → pick_by cases kind none filter_pat ≡ found (indices (name_test filter_pat) 0 cases)
unfolding pick_by
pick_by-none cases kind none = refl
pick_by-none cases kind (some pattern) = refl

-- What each option asks of a case, with no reference to the code's tests.
abbrev pub NameFits : Option Bytes → Case → Type 0
NameFits none c = Unit {0}
NameFits (some pattern) c = Matches pattern c.name

abbrev pub IsKind : KindFilter → Case → Type 0
IsKind all c = Unit {0}
IsKind test c = (c.is_benchmark ≡ false) × (c.is_jitter ≡ false)
IsKind bench c = c.is_benchmark ≡ true
IsKind jitter c = c.is_jitter ≡ true

abbrev pub HasTag : Bytes → List Bytes → Type 0
HasTag tag [] = ⊥
HasTag tag (t ∷ tags) = (map lower t ≡ map lower tag) ⊎ HasTag tag tags

abbrev pub Wanted : {D : Type 0} → CliOptions D → Case → Type 0
Wanted opt c =
    NameFits opt.filter_pat c
    × IsKind opt.kind c
    × ((opt.include_death ≡ true) ⊎ ¬ HasTag (codes "death") c.tags)

has_tag_iff : (tags : List Bytes) (tag : Bytes) → (has_tag tags tag ≡ true) ↔ HasTag tag tags
unfolding has_tag
has_tag_iff [] tag = ground arith
has_tag_iff (t ∷ tags) tag = ground (arith, has_tag_iff tags tag, iequals_ascii_iff t tag)

name_test_iff :
    (filter_pat : Option Bytes) (c : Case)
    → Starless c.name
    → (name_test filter_pat c ≡ true) ↔ NameFits filter_pat c
unfolding matched
name_test_iff none c plain = (λ e. tt, λ u. refl)
name_test_iff (some pattern) c plain =
    let (yes_if, only_if) = wildcard_match_iff c.name pattern plain in
    (λ e. yes_if (ground arith), λ d. rw (only_if d) refl)

case_matches_kind-IsKind :
    (kind : KindFilter) (c : Case) → (case_matches_kind c kind ≡ true) ↔ IsKind kind c
unfolding case_matches_kind case_is_test
case_matches_kind-IsKind all c = ground arith
case_matches_kind-IsKind test c = ground arith
case_matches_kind-IsKind bench c = ground arith
case_matches_kind-IsKind jitter c = ground arith

Wanted-iff :
    {D : Type 0} (opt : CliOptions D) (c : Case)
    → Starless c.name
    → ((name_test opt.filter_pat c && survives opt c) ≡ true) ↔ Wanted opt c
unfolding has_tag_ci
Wanted-iff opt c plain = ground (
  arith,
  name_test_iff opt.filter_pat c plain,
  case_matches_kind-IsKind opt.kind c,
  has_tag_iff c.tags (codes "death"),
)

select_cases-idxs :
    {D : Type 0} (cases : List Case) (opt : CliOptions D)
    → opt.run_exact ≡ none
    → Chosen
        (indices (λ c. name_test opt.filter_pat c && survives opt c) 0 cases)
        (select_cases cases opt)
unfolding select_cases pick
select_cases-idxs cases opt h =
    let b = is_some opt.run_exact || is_some opt.filter_pat in
    let xs = indices (λ c. name_test opt.filter_pat c && survives opt c) 0 cases in
    let e =
      ap (λ r. pick_by cases opt.kind r opt.filter_pat) h
      ∙ pick_by-none cases opt.kind opt.filter_pat in
    subst (λ p. Chosen xs (narrow cases opt b p)) (sym e)
      (narrow-Chosen cases opt b (name_test opt.filter_pat))

contains_at :
    (p : Case → Bool) (cases : List Case) (i : ℕ) (c : Case)
    → get_elem? cases i ≡ some c
    → contains i (indices p 0 cases) ≡ p c
contains_at p cases i c g =
    ap (λ k. contains k (indices p 0 cases)) (sym (zero_add i))
    ∙ contains-indices p 0 i cases
    ∙ test_at_lem p cases i c g

-- With no `--run`, and names without a star: a selection that is ok lists, in increasing order, the
-- index of every case that the options ask for, and no other index.
pub select_cases-Wanted :
    {D : Type 0} (cases : List Case) (opt : CliOptions D) (i : ℕ) (c : Case)
    → opt.run_exact ≡ none
    → (select_cases cases opt).status ≡ ok
    → get_elem? cases i ≡ some c
    → Starless c.name
    → Increasing 0 (select_cases cases opt).idxs
      × ((contains i (select_cases cases opt).idxs ≡ true) ↔ Wanted opt c)
select_cases-Wanted cases opt i c h s g plain =
    rw (select_cases-idxs cases opt h s)
      (indices-Increasing _ 0 cases, rw (contains_at _ cases i c g) (Wanted-iff opt c plain))
