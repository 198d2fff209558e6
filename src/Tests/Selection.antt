-- ===== src/Tests/Selection.antt =====
-- Selections and wildcard matches.
use gentest.Base.{
  ℕ, ◌≡◌, refl, ◌↔◌, Bool, true, false, some, [], ◌∷◌, Bytes, codes, arith, bytes_eq, ◌==◌, ◌||◌,
}
use gentest.Options.{CliOptions}
use gentest.Cli.State.{default_options}
use gentest.Selector.Wildcard.{star, wildcard_match}
use gentest.Selector.Wildcard.Spec.{Matches}
use gentest.Selector.Wildcard.Loop.{Starless, wildcard_match_lem, wildcard_match-star_text}
use gentest.Selector.Select.{select_cases}
use gentest.Selector.Select.Kinds.{SplitOrBlank, select_cases-SplitOrBlank}
use gentest.Selector.Select.Indices.{Increasing, contains}
use gentest.Selector.Select.Filtered.{Wanted, select_cases-Wanted}
use gentest.Selector.Select.Exact.{Chooses, select_cases_run}
use gentest.Tests.Data.{four, fails, whole}

abbrev has_star : Bytes → Bool
has_star [] = false
has_star (c ∷ s) = (c == star) || has_star s

plain : (s : Bytes) → has_star s ≡ false → Starless s
plain [] h = tt
plain (c ∷ s) h = (ground arith, plain s (ground arith))

wildcard_match_lem_example :
    (b : Bool) × (wildcard_match (codes "io/x") (codes "io/*") ≡ some b)
    × ((b ≡ true) ↔ Matches (codes "io/*") (codes "io/x"))
wildcard_match_lem_example =
    wildcard_match_lem (codes "io/x") (codes "io/*") (plain (codes "io/x") refl)

wildcard_match-star_text_example : wildcard_match (codes "*x") (codes "*") ≡ some false
wildcard_match-star_text_example = wildcard_match-star_text b'x' []

abbrev filtered : CliOptions ℕ
filtered = record (default_options whole) { filter_pat = some (codes "math/*") }

abbrev exactly : CliOptions ℕ
exactly = record (default_options whole) { run_exact = some (codes "fails") }

select_cases-SplitOrBlank_example : SplitOrBlank four (select_cases four filtered)
select_cases-SplitOrBlank_example = select_cases-SplitOrBlank four filtered

select_cases-Wanted_example :
    Increasing 0 (select_cases four filtered).idxs
    × ((contains 1 (select_cases four filtered).idxs ≡ true) ↔ Wanted filtered fails)
unfolding select_cases default_options wildcard_match bytes_eq
select_cases-Wanted_example =
    select_cases-Wanted four filtered 1 fails refl refl refl (plain (codes "math/fails") refl)

select_cases_run_example :
    (i : ℕ) × ((select_cases four exactly).idxs ≡ i ∷ [])
    × Chooses (codes "fails") exactly.kind four i
unfolding select_cases default_options bytes_eq
select_cases_run_example = select_cases_run four exactly (codes "fails") refl refl
