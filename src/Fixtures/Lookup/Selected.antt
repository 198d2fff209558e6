-- ===== src/Fixtures/Lookup/Selected.antt =====
-- The fixture that a lookup finds.
use mathlib.Core.List.{mem-cons_self, mem-cons_of_mem}
use gentest.Base.{
  ℕ, ◌≤◌, ◌≡◌, refl, subst, ◌⊎◌, ◌↔◌, inl, inr, Bool, true, false, ◌&&◌, Option, none, some, List,
  [], ◌∷◌, Bytes, bytes_eq_iff, arith, length, Mem, All, Bool-cases, Option-cases,
}
use gentest.Results.Execute.{SharedFixtureScope}
use gentest.Fixtures.{SharedFixtureEntry, SharedFixtureRegistry}
use gentest.Fixtures.Order.{same_scope_iff}
use gentest.Fixtures.Lookup.{
  is_candidate, is_better, select_entry, entry_instance, get_shared_fixture,
}
use gentest.Fixtures.Lookup.Suites.{Serves, suite_scope_matches_iff}

-- The entry has this scope and name, and serves the suite.
abbrev pub Fits : SharedFixtureScope → Bytes → Bytes → SharedFixtureEntry → Type 0
Fits scope suite fixture_name e =
    (e.scope ≡ scope) × (e.fixture_name ≡ fixture_name) × Serves e.suite suite

pub is_candidate_iff :
    (scope : SharedFixtureScope) (suite fixture_name : Bytes) (e : SharedFixtureEntry)
    → (is_candidate scope suite fixture_name e ≡ true) ↔ Fits scope suite fixture_name e
unfolding is_candidate
is_candidate_iff scope suite fixture_name e =
    let h = suite_scope_matches_iff e.suite suite in
    let k = same_scope_iff e.scope scope in
    let n = bytes_eq_iff e.fixture_name fixture_name in
    (
      (λ c. (k.0 (ground arith), n.0 (ground arith), h.0 (ground arith))),
      (λ (c, m, s). ground (arith, k.1 c, n.1 m, h.1 s)),
    )

-- An initialized fixture with this address.
pub record Gives (e : SharedFixtureEntry) (address : ℕ) : Type 0 where
  pub shared_instance : e.shared_instance ≡ some address
  pub initialized : e.initialized ≡ true
  pub initializing : e.initializing ≡ false
  pub failed : e.failed ≡ false

entry_instance-Gives :
    (b : Bool) (r : Option SharedFixtureEntry) (address : ℕ) (error : Bytes)
    → entry_instance b r ≡ (some address, error)
    → (e : SharedFixtureEntry) × (r ≡ some e) × Gives e address
unfolding entry_instance
entry_instance-Gives b none address error h = absurd (ground arith)
entry_instance-Gives b (some e) address error h = (
  e,
  refl,
  record {
    shared_instance = ground arith;
    initialized = ground arith;
    initializing = ground arith;
    failed = ground arith;
  },
)

module _ (scope : SharedFixtureScope) (suite fixture_name : Bytes) where
  -- No candidate has a longer suite.
  abbrev pub Longest : SharedFixtureEntry → SharedFixtureEntry → Type 0
  Longest e x = is_candidate scope suite fixture_name x ≡ true → length x.suite ≤ length e.suite

  -- What is selected of the entries.
  abbrev pub Selects : List SharedFixtureEntry → Option SharedFixtureEntry → Type 0
  Selects es none = All (λ x. is_candidate scope suite fixture_name x ≡ false) es
  Selects es (some e) =
      Mem e es × (is_candidate scope suite fixture_name e ≡ true) × All (Longest e) es

  -- The same from an entry selected before.
  abbrev SelectsFrom :
      Option SharedFixtureEntry → List SharedFixtureEntry → Option SharedFixtureEntry → Type 0
  SelectsFrom sel es none =
      (sel ≡ none) × All (λ x. is_candidate scope suite fixture_name x ≡ false) es
  SelectsFrom sel es (some e) =
      ((sel ≡ some e) ⊎ (Mem e es × (is_candidate scope suite fixture_name e ≡ true)))
      × All (Longest e) es
      × ((s : SharedFixtureEntry) → sel ≡ some s → length s.suite ≤ length e.suite)

  select-taken :
      (x : SharedFixtureEntry) (es : List SharedFixtureEntry) (sel r : Option SharedFixtureEntry)
      → is_candidate scope suite fixture_name x ≡ true
      → is_better x sel ≡ true
      → SelectsFrom (some x) es r
      → SelectsFrom sel (x ∷ es) r
  unfolding is_better
  select-taken x es sel none c b (h, k) = absurd (ground arith)
  select-taken x es sel (some e) c b (h, k, l) = (
    inr (elim h [
      | inl s ↦
          (let same : x ≡ e = ground arith in
            (
              subst (λ y. Mem y (x ∷ es)) same mem-cons_self,
              subst (λ y. is_candidate scope suite fixture_name y ≡ true) same c,
            ))
      | inr m ↦ (mem-cons_of_mem x m.0, m.1)
    ]),
    (λ c'. l x refl, k),
    λ s q. ground (arith, l x refl),
  )

  select-passed :
      (x : SharedFixtureEntry) (es : List SharedFixtureEntry) (sel r : Option SharedFixtureEntry)
      → (is_candidate scope suite fixture_name x && is_better x sel) ≡ false
      → SelectsFrom sel es r
      → SelectsFrom sel (x ∷ es) r
  unfolding is_better
  select-passed x es sel none b (h, k) = (h, (unfit, k))
    where
      unfit : is_candidate scope suite fixture_name x ≡ false
      unfit = ground arith
  select-passed x es sel (some e) b (h, k, l) =
      (elim h [ inl s ↦ inl s | inr m ↦ inr (mem-cons_of_mem x m.0, m.1) ], (shorter, k), l)
    where
      shorter : Longest e x
      shorter c = elim (Option-cases sel) [
        | inl n ↦ absurd (ground arith)
        | inr (s, n) ↦ ground (arith, l s n)
      ]

  select_entry-SelectsFrom :
      (sel : Option SharedFixtureEntry) (es : List SharedFixtureEntry)
      → SelectsFrom sel es (select_entry scope suite fixture_name sel es)
  unfolding select_entry
  select_entry-SelectsFrom none [] = (refl, tt)
  select_entry-SelectsFrom (some s) [] = (inl refl, tt, λ s' q. ground arith)
  select_entry-SelectsFrom sel (x ∷ es) =
      let c = is_candidate scope suite fixture_name x in
      elim (Bool-cases (c && is_better x sel)) [
        | inl b ↦ rw b (
            select-taken x es sel _ (ground arith) (ground arith)
              (select_entry-SelectsFrom (some x) es))
        | inr b ↦ rw b (select-passed x es sel _ b (select_entry-SelectsFrom sel es))
      ]

  -- The lookup's choice: no candidate, or a candidate with the longest suite.
  pub select_entry-Selects :
      (es : List SharedFixtureEntry) → Selects es (select_entry scope suite fixture_name none es)
  select_entry-Selects es =
      chosen (select_entry scope suite fixture_name none es) (select_entry-SelectsFrom none es)
    where
      chosen : (r : Option SharedFixtureEntry) → SelectsFrom none es r → Selects es r
      chosen none h = h.1
      chosen (some e) (inl n, k, l) = absurd (ground arith)
      chosen (some e) (inr m, k, l) = (m.0, m.1, k)

  Longest-Fits :
      (e : SharedFixtureEntry) (es : List SharedFixtureEntry)
      → All (Longest e) es
      → All (λ x. Fits scope suite fixture_name x → length x.suite ≤ length e.suite) es
  Longest-Fits e [] h = tt
  Longest-Fits e (x ∷ es) h =
      ((λ f. h.0 ((is_candidate_iff scope suite fixture_name x).1 f)), Longest-Fits e es h.1)

  -- A lookup returns an address only if no registration has failed, and then that of a registered
  -- fixture of this scope and name that is initialized, has not failed, and serves the suite; no other
  -- such fixture has a longer suite.
  pub get_shared_fixture_sound :
      (reg : SharedFixtureRegistry) (address : ℕ) (error : Bytes)
      → get_shared_fixture scope suite fixture_name reg ≡ (some address, error)
      → (reg.registration_error ≡ false)
        × ((e : SharedFixtureEntry) × Mem e reg.entries
            × Fits scope suite fixture_name e
            × Gives e address
            × All
                (λ x. Fits scope suite fixture_name x → length x.suite ≤ length e.suite)
                reg.entries)
  unfolding get_shared_fixture
  get_shared_fixture_sound reg address error h =
      let r = select_entry scope suite fixture_name none reg.entries in
      let no_error : reg.registration_error ≡ false = ground arith in
      let given : entry_instance reg.teardown_in_progress r ≡ (some address, error) =
        rw no_error at h in
      let (e, q, g) = entry_instance-Gives reg.teardown_in_progress r address error given in
      let (m, c, l) = subst (Selects reg.entries) q (select_entry-Selects reg.entries) in
      (
        no_error,
        (e, m, (is_candidate_iff scope suite fixture_name e).0 c, g, Longest-Fits e reg.entries l),
      )
