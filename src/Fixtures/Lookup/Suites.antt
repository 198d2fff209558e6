-- ===== src/Fixtures/Lookup/Suites.antt =====
-- The suites that a suite fixture serves.
use mathlib.Core.List.{append-nil}
use gentest.Base.{
  ◌==◌, ==_iff, ap, ℕ, ◌≡◌, refl, ◌⊎◌, ◌↔◌, inl, inr, true, [], ◌∷◌, ◌++◌, Bytes, bytes_eq,
  bytes_eq_iff, arith, length-append, strip_prefix, strip_prefix_iff, Option-cases, Bool-cases,
}
use gentest.Fixtures.Lookup.{remainder_matches, suite_scope_matches}

-- Every suite, the suite itself, or one below it, after a slash or two colons.
abbrev pub Serves : Bytes → Bytes → Type 0
Serves fixture_suite requested_suite =
    (fixture_suite ≡ [])
    ⊎ (requested_suite ≡ fixture_suite)
    ⊎ ((rest : Bytes) × (requested_suite ≡ fixture_suite ++ b'/' ∷ rest))
    ⊎ ((rest : Bytes) × (requested_suite ≡ fixture_suite ++ b':' ∷ b':' ∷ rest))

remainder_matches-Serves : (f r : Bytes) → remainder_matches r ≡ true → Serves f (f ++ r)
unfolding remainder_matches
remainder_matches-Serves f [] h = inr (inl (append-nil f))
remainder_matches-Serves f (c ∷ []) h =
    inr (inr (inl ([], ap (λ x. f ++ x ∷ []) ((==_iff c b'/').0 h))))
remainder_matches-Serves f (c ∷ d ∷ rest) h = elim (Bool-cases (c == b'/')) [
  | inl e ↦ inr (inr (inl (d ∷ rest, ap (λ x. f ++ x ∷ d ∷ rest) ((==_iff c b'/').0 e))))
  | inr e ↦ inr (inr (inr (rest, colons (ground arith) (ground arith))))
]
  where
    colons : c ≡ b':' → d ≡ b':' → f ++ c ∷ d ∷ rest ≡ f ++ b':' ∷ b':' ∷ rest
    colons hc hd = rw (hc, hd) refl

-- A longer suite with the fixture's suite in front of it is tested on the rest alone.
suite_scope_matches-append :
    (f r : Bytes) (c : ℕ)
    → remainder_matches (c ∷ r) ≡ true
    → suite_scope_matches f (f ++ c ∷ r) ≡ true
unfolding suite_scope_matches
suite_scope_matches-append f r c h =
    ground (arith, (strip_prefix_iff f (f ++ c ∷ r) (c ∷ r)).1 refl, length-append f (c ∷ r))

suite_scope_matches-Serves : (f s : Bytes) → suite_scope_matches f s ≡ true → Serves f s
unfolding suite_scope_matches
suite_scope_matches-Serves [] s h = inl refl
suite_scope_matches-Serves (x ∷ f) s h = elim (Option-cases (strip_prefix (x ∷ f) s)) [
  | inl n ↦ inr (inl (ground (arith, bytes_eq_iff s (x ∷ f))))
  | inr (r, n) ↦ elim (Bool-cases (bytes_eq s (x ∷ f))) [
    | inl e ↦ inr (inl ((bytes_eq_iff s (x ∷ f)).0 e))
    | inr e ↦
        rw ((strip_prefix_iff (x ∷ f) s r).0 n) (remainder_matches-Serves (x ∷ f) r (ground arith))
  ]
]

slash : (rest : Bytes) → remainder_matches (b'/' ∷ rest) ≡ true
unfolding remainder_matches
slash [] = refl
slash (d ∷ rest) = refl

-- A fixture of a suite serves every suite if its own suite is empty, and else its own suite and the
-- suites below it, which continue its name with a slash or with two colons.
pub suite_scope_matches_iff :
    (fixture_suite requested_suite : Bytes)
    → (suite_scope_matches fixture_suite requested_suite ≡ true)
      ↔ Serves fixture_suite requested_suite
unfolding suite_scope_matches
suite_scope_matches_iff f s = (suite_scope_matches-Serves f s, back)
  where
    back : Serves f s → suite_scope_matches f s ≡ true
    back (inl e) = rw e refl
    back (inr (inl e)) = ground (arith, (bytes_eq_iff s f).1 e)
    back (inr (inr (inl (rest, e)))) = rw e (suite_scope_matches-append f rest b'/' (slash rest))
    back (inr (inr (inr (rest, e)))) = rw e (suite_scope_matches-append f (b':' ∷ rest) b':' refl)
