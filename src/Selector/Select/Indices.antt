-- ===== src/Selector/Select/Indices.antt =====
-- The lists of indices that `select_cases` builds.
use mathlib.Core.List.Perm
use mathlib.Core.List.{perm_middle, append_assoc}
use gentest.Base.{
  ℕ, zero, suc, ◌+◌, ◌≤◌, ◌<◌, ◌≡◌, refl, inl, inr, Bool, false, not, ◌&&◌, ◌||◌, some, List, [],
  ◌∷◌, ◌++◌, Perm, arith, ◌==◌, get_elem?, keep, Bool-cases,
}
use gentest.Cases.{Case}
use gentest.Selector.Select.{indices, test_at, drop_death}

abbrev pub contains : ℕ → List ℕ → Bool
contains i [] = false
contains i (j ∷ js) = (i == j) || contains i js

-- Every entry is larger than the one before, and the first is at least `k`.
abbrev pub Increasing : ℕ → List ℕ → Type 0
Increasing k [] = Unit {0}
Increasing k (i ∷ is) = (k ≤ i) × Increasing (suc i) is

pub Increasing-mono : (k m : ℕ) (is : List ℕ) → k ≤ m → Increasing m is → Increasing k is
Increasing-mono k m [] h r = tt
Increasing-mono k m (i ∷ is) h r = (omega (arith, r.0), r.1)

pub indices-Increasing :
    (p : Case → Bool) (k : ℕ) (cases : List Case) → Increasing k (indices p k cases)
unfolding indices
indices-Increasing p k [] = tt
indices-Increasing p k (c ∷ cases) =
    let rest = indices-Increasing p (suc k) cases in
    elim (Bool-cases (p c)) [
      | inl e ↦ rw e (omega arith, rest)
      | inr e ↦ rw e (Increasing-mono k (suc k) (indices p (suc k) cases) (omega arith) rest)
    ]

contains_below : (i k : ℕ) (is : List ℕ) → i < k → Increasing k is → contains i is ≡ false
contains_below i k [] h r = refl
contains_below i k (j ∷ is) h r = ground (arith, contains_below i (suc j) is)

-- The index `k + j` is collected exactly when the case at `j` passes the test.
pub contains-indices :
    (p : Case → Bool) (k j : ℕ) (cases : List Case)
    → contains (k + j) (indices p k cases) ≡ test_at p cases j
unfolding indices test_at
contains-indices p k j [] = refl
contains-indices p k zero (c ∷ cases) = ground (
  arith,
  contains_below (k + zero) (suc k) (indices p (suc k) cases),
  indices-Increasing p (suc k) cases,
)
contains-indices p k (suc j) (c ∷ cases) =
    let e : suc k + j ≡ k + suc j = omega arith in
    let ih : contains (k + suc j) (indices p (suc k) cases) ≡ test_at p cases j =
      rw e at (contains-indices p (suc k) j cases) in
    ground (arith, ih)

-- A second filter by a test of the indexed case is a second condition.
pub keep-indices :
    (p r : Case → Bool) (q : ℕ → Bool) (k : ℕ) (cases : List Case)
    → ((j : ℕ) (c : Case) → get_elem? cases j ≡ some c → q (k + j) ≡ r c)
    → keep q (indices p k cases) ≡ indices (λ c. p c && r c) k cases
unfolding indices
keep-indices p r q k [] h = refl
keep-indices p r q k (c ∷ cases) h =
    let e : k + 0 ≡ k = omega arith in
    let here : q k ≡ r c = rw e at (h 0 c refl) in
    ground (arith, keep-indices p r q (suc k) cases later, here)
  where
    later : (j : ℕ) (d : Case) → get_elem? cases j ≡ some d → q (suc k + j) ≡ r d
    later j d g = let e : k + suc j ≡ suc k + j = omega arith in rw e at (h (suc j) d g)

pub test_at_lem :
    (p : Case → Bool) (cases : List Case) (j : ℕ) (c : Case)
    → get_elem? cases j ≡ some c
    → test_at p cases j ≡ p c
unfolding test_at
test_at_lem p cases j c h = rw (h, test_at)

pub drop_death-keep :
    (dead : ℕ → Bool) (is : List ℕ) → (drop_death dead is).0 ≡ keep (λ i. not (dead i)) is
unfolding drop_death
drop_death-keep dead [] = refl
drop_death-keep dead (i ∷ is) = ground (arith, drop_death-keep dead is)

pub indices-congr :
    (p r : Case → Bool) (k : ℕ) (cases : List Case)
    → ((c : Case) → p c ≡ r c)
    → indices p k cases ≡ indices r k cases
unfolding indices
indices-congr p r k [] h = refl
indices-congr p r k (c ∷ cases) h = ground (arith, h c, indices-congr p r (suc k) cases h)

-- The split by kind loses and repeats no index.
pub keep-perm :
    (b j : ℕ → Bool) (is : List ℕ)
    → Perm is
        (keep (λ i. not (b i) && not (j i)) is ++ (keep b is ++ keep (λ i. not (b i) && j i) is))
keep-perm b j [] = Perm.nil
keep-perm b j (i ∷ is) =
    let ih = Perm.cons i (keep-perm b j is) in
    let tests : List ℕ = keep (λ i. not (b i) && not (j i)) is in
    let benches : List ℕ = keep b is in
    let jitters : List ℕ = keep (λ i. not (b i) && j i) is in
    elim (Bool-cases (b i)) [
      | inl e ↦ rw e (Perm.trans ih (Perm.symm (perm_middle tests (benches ++ jitters))))
      | inr e ↦ elim (Bool-cases (j i)) [
        | inl f ↦
            rw (e, f)
              (Perm.trans ih (
                rw
                  (← append_assoc tests benches jitters, ← append_assoc tests benches (i ∷ jitters))
                  (Perm.symm (perm_middle (tests ++ benches) jitters))))
        | inr f ↦ rw (e, f) ih
      ]
    ]
