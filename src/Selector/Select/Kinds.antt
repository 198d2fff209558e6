-- ===== src/Selector/Select/Kinds.antt =====
-- What every selection looks like: split by kind, or empty with a status that says why.
use gentest.Base.{
  ℕ, ◌≡◌, refl, ◌≢◌, ◌⊎◌, inl, inr, Bool, false, not, ◌&&◌, Option, none, some, List, [], ◌∷◌, ◌++◌,
  Perm, arith, keep, is_empty, ltb, Bytes, if-cases, codes,
}
use gentest.Cases.{Case}
use gentest.Options.{CliOptions, KindFilter, bench, jitter}
use gentest.Selector.Tags.{has_tag_ci}
use gentest.Selector.Select.{
  SelectionStatus, ok, SelectionResult, Picked, stop, found, test_at, unique_match, pick_exact,
  pick, empty_status, nothing_left, death_status, empty_result, drop_death, split_selected_cases,
  without_death, narrow, select_cases, case_matches_kind,
}
use gentest.Selector.Select.Indices.{contains, keep-perm}

contains-keep :
    (q : ℕ → Bool) (i : ℕ) (is : List ℕ) → contains i (keep q is) ≡ (contains i is && q i)
contains-keep q i [] = refl
contains-keep q i (j ∷ is) = ground (arith, contains-keep q i is)

-- The four lists of a result belong together: either the status is ok, there is an index, and the
-- indices are split by the kind of their case, or nothing is to be run.
pub record IsSplit (cases : List Case) (r : SelectionResult) : Type 0 where
  pub some_index : r.idxs ≢ []
  pub no_loss : Perm r.idxs (r.test_idxs ++ (r.bench_idxs ++ r.jitter_idxs))
  pub benches :
      (i : ℕ)
      → contains i r.bench_idxs ≡ (contains i r.idxs && test_at (λ c. c.is_benchmark) cases i)
  pub jitters :
      (i : ℕ)
      → contains i r.jitter_idxs ≡ (
          contains i r.idxs
          && (not (test_at (λ c. c.is_benchmark) cases i) && test_at (λ c. c.is_jitter) cases i))

pub record IsBlank (r : SelectionResult) : Type 0 where
  pub no_index : r.idxs ≡ []
  pub no_test : r.test_idxs ≡ []
  pub no_bench : r.bench_idxs ≡ []
  pub no_jitter : r.jitter_idxs ≡ []

abbrev pub SplitOrBlank : List Case → SelectionResult → Type 0
SplitOrBlank cases r = ((r.status ≡ ok) × IsSplit cases r) ⊎ ((r.status ≢ ok) × IsBlank r)

split_selected_cases-IsSplit :
    (cases : List Case) (idxs : List ℕ) (b : Bool) (n : ℕ)
    → idxs ≢ []
    → IsSplit cases (split_selected_cases cases idxs b n)
unfolding split_selected_cases
split_selected_cases-IsSplit cases idxs b n h = record {
  some_index = h;
  no_loss = keep-perm (test_at (λ c. c.is_benchmark) cases) (test_at (λ c. c.is_jitter) cases) idxs;
  benches = λ i. contains-keep (test_at (λ c. c.is_benchmark) cases) i idxs;
  jitters = λ i. contains-keep _ i idxs;
}

drop_death_all :
    (dead : ℕ → Bool) (is : List ℕ)
    → (drop_death dead is).0 ≡ []
    → (drop_death dead is).1 ≡ 0
    → is ≡ []
unfolding drop_death
drop_death_all dead [] h e = refl
drop_death_all dead (i ∷ is) h e = ground arith

kept_some :
    (dead : ℕ → Bool) (is : List ℕ)
    → is ≢ []
    → (is_empty (drop_death dead is).0 && ltb 0 (drop_death dead is).1) ≡ false
    → (drop_death dead is).0 ≢ []
kept_some dead is h t e = h (drop_death_all dead is e (ground (arith, rw e at t)))

is_empty_iff : {is : List ℕ} → is_empty is ≡ false → is ≢ []
is_empty_iff {is} h e = cc (rw e at h)

split-SplitOrBlank :
    (cases : List Case) (idxs : List ℕ) (b : Bool) (n : ℕ)
    → idxs ≢ []
    → SplitOrBlank cases (split_selected_cases cases idxs b n)
unfolding split_selected_cases
split-SplitOrBlank cases idxs b n h = inl (refl, split_selected_cases-IsSplit cases idxs b n h)

pub death_status-ne : (o : Option Bytes) → death_status o ≢ ok
death_status-ne none = λ e. cc
death_status-ne (some exact) = λ e. cc

pub empty_status-ne : (o : Option Bytes) (k : KindFilter) → empty_status o k ≢ ok
unfolding empty_status
empty_status-ne none k = λ e. cc
empty_status-ne (some pat) bench = λ e. cc
empty_status-ne (some pat) jitter = λ e. cc
empty_status-ne (some pat) k = λ e. cc

blank-SplitOrBlank :
    (cases : List Case) (status : SelectionStatus) (ambiguous : List ℕ) (b : Bool) (n : ℕ)
    → status ≢ ok
    → SplitOrBlank cases (empty_result status ambiguous b n)
blank-SplitOrBlank cases status ambiguous b n h =
    inr (h, record { no_index = refl; no_test = refl; no_bench = refl; no_jitter = refl })

module _ {D : Type 0} (cases : List Case) (opt : CliOptions D) (b : Bool) where
  without_death-SplitOrBlank :
      (idxs : List ℕ) → idxs ≢ [] → SplitOrBlank cases (without_death cases opt b idxs)
  unfolding without_death
  without_death-SplitOrBlank idxs h =
      let d = drop_death (test_at (λ c. has_tag_ci c (codes "death")) cases) idxs in
      if-cases (SplitOrBlank cases) opt.include_death _ _ (λ e. split-SplitOrBlank cases idxs b 0 h)
        λ e.
          if-cases (SplitOrBlank cases) (is_empty d.0 && ltb 0 d.1)
            (empty_result (death_status opt.run_exact) [] b d.1)
            (split_selected_cases cases d.0 b d.1)
            (λ all_gone. blank-SplitOrBlank cases _ [] b d.1 (death_status-ne opt.run_exact))
            λ some_left. split-SplitOrBlank cases d.0 b d.1 (kept_some _ idxs h some_left)

  narrow-SplitOrBlank :
      (p : Picked)
      → ((s : SelectionStatus) (l : List ℕ) → p ≡ stop s l → s ≢ ok)
      → SplitOrBlank cases (narrow cases opt b p)
  unfolding narrow
  narrow-SplitOrBlank (stop s l) h = blank-SplitOrBlank cases s l b 0 (h s l refl)
  narrow-SplitOrBlank (found idxs) h =
      let kept = keep (test_at (λ c. case_matches_kind c opt.kind) cases) idxs in
      if-cases (SplitOrBlank cases) (is_empty kept) (empty_result (nothing_left opt) [] b 0)
        (without_death cases opt b kept)
        (λ e. blank-SplitOrBlank cases _ [] b 0 (empty_status-ne opt.filter_pat opt.kind))
        λ e. without_death-SplitOrBlank kept (is_empty_iff e)

-- A selection that stops does not say ok.
pub pick-ne :
    {D : Type 0} (cases : List Case) (opt : CliOptions D) (s : SelectionStatus) (l : List ℕ)
    → pick cases opt ≡ stop s l
    → s ≢ ok
unfolding pick pick_exact unique_match
pick-ne cases opt s l h e = ground arith

-- Every selection is one of two: ok, with at least one index, and with the indices split by kind into
-- a permutation of them; or not ok, and nothing is to be run.
pub select_cases-SplitOrBlank :
    {D : Type 0} (cases : List Case) (opt : CliOptions D)
    → SplitOrBlank cases (select_cases cases opt)
unfolding select_cases
select_cases-SplitOrBlank cases opt =
    narrow-SplitOrBlank cases opt _ (pick cases opt) (pick-ne cases opt)
