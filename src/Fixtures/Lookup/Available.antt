-- ===== src/Fixtures/Lookup/Available.antt =====
-- Lookups between setup and teardown, and after it.
use mathlib.Core.List.{eq-or-mem_of_mem-cons, not-mem-nil}
use mathlib.Core.HLevel.{⊥_prop}
use mathlib.Core.Logic.Or
use gentest.Base.{
  ℕ, ◌≡◌, refl, ap, inl, inr, Bool, true, false, not, ◌&&◌, Option, none, some, List, [], ◌∷◌,
  Bytes, arith, Mem, All, map, Bool-cases, Option-cases,
}
use gentest.Results.Execute.{SharedFixtureScope}
use gentest.Fixtures.{SharedFixtureEntry, SharedFixtureRegistry, SharedFixtureRunGate}
use gentest.Fixtures.Phase.{Thread, Callbacks}
use gentest.Fixtures.Setup.{Setting, reset_entry, has_run, setup_shared_fixtures}
use gentest.Fixtures.Setup.States.{IsReady}
use gentest.Fixtures.Setup.Pass.{set_up_all}
use gentest.Fixtures.Setup.Loop.{with_entries, setup_shared_fixtures-pass}
use gentest.Fixtures.Setup.Outcome.{EachSetUp, set_up_all-EachSetUp, set_up_all-IsReady}
use gentest.Fixtures.Teardown.{set_teardown, teardown_shared_fixtures}
use gentest.Fixtures.Teardown.Pass.{torn_address, after_teardown, all_after_teardown}
use gentest.Fixtures.Teardown.Reverse.{teardown_shared_fixtures-reverse}
use gentest.Fixtures.Lookup.{is_candidate, select_entry, entry_instance, get_shared_fixture}
use gentest.Fixtures.Lookup.Selected.{
  Fits, is_candidate_iff, Selects, select_entry-Selects, get_shared_fixture_sound,
}

not-Mem :
    (f : SharedFixtureEntry → Bool) (e : SharedFixtureEntry) (es : List SharedFixtureEntry)
    → All (λ x. f x ≡ false) es
    → f e ≡ true
    → Mem e es
    → ⊥
not-Mem f e [] h t m = not-mem-nil m
not-Mem f e (x ∷ es) h t m =
    Or.elim ⊥_prop (eq-or-mem_of_mem-cons m) (λ q. absurd (cc)) (not-Mem f e es h.1 t)

abbrev has_instance : Option ℕ → Bool
has_instance none = false
has_instance (some address) = true

-- The fields of a ready entry, as a test.
abbrev is_unready : SharedFixtureEntry → Bool
is_unready e =
    not (e.initialized && not e.initializing && not e.failed && has_instance e.shared_instance)

IsReady-is_unready :
    (es : List SharedFixtureEntry) → All IsReady es → All (λ e. is_unready e ≡ false) es
IsReady-is_unready [] h = tt
IsReady-is_unready (e ∷ es) h = (
  ground (arith, h.0.initialized, h.0.initializing, h.0.failed, h.0.available.1),
  IsReady-is_unready es h.1,
)

entry_instance-ready :
    (b : Bool) (e : SharedFixtureEntry)
    → is_unready e ≡ false
    → (address : ℕ) × (entry_instance b (some e) ≡ (some address, []))
unfolding entry_instance
entry_instance-ready b e h = elim (Option-cases e.shared_instance) [
  | inl n ↦ absurd (ground arith)
  | inr (address, n) ↦ (address, ground arith)
]

module _ (scope : SharedFixtureScope) (suite fixture_name : Bytes) where
  get_shared_fixture-ready :
      (reg : SharedFixtureRegistry)
      → reg.registration_error ≡ false
      → All IsReady reg.entries
      → (All (λ x. is_candidate scope suite fixture_name x ≡ false) reg.entries → ⊥)
      → (address : ℕ) × (get_shared_fixture scope suite fixture_name reg ≡ (some address, []))
  unfolding get_shared_fixture
  get_shared_fixture-ready reg no_error ready some_fits = rw no_error (
      chosen (select_entry scope suite fixture_name none reg.entries)
        (select_entry-Selects scope suite fixture_name reg.entries))
    where
      chosen :
          (r : Option SharedFixtureEntry)
          → Selects scope suite fixture_name reg.entries r
          → (address : ℕ) × (entry_instance reg.teardown_in_progress r ≡ (some address, []))
      chosen none h = absurd (some_fits h)
      chosen (some x) h = elim (Bool-cases (is_unready x)) [
        | inl u ↦
            absurd (not-Mem is_unready x reg.entries (IsReady-is_unready reg.entries ready) u h.0)
        | inr u ↦ entry_instance-ready reg.teardown_in_progress x u
      ]

  no_candidate :
      (es es' : List SharedFixtureEntry)
      → EachSetUp es es'
      → All (λ x. is_candidate scope suite fixture_name x ≡ false) es'
      → All (λ x. is_candidate scope suite fixture_name x ≡ false) es
  unfolding is_candidate
  no_candidate [] es' h k = tt
  no_candidate (e ∷ es) (e' ∷ es') h k =
      let same = h.1 in
      (ground (arith, same.fixture_name, same.suite, same.scope, k.0), no_candidate es es' h.2 k.1)
  no_candidate (e ∷ es) [] h k = absurd h

get_shared_fixture-empty :
    (reg : SharedFixtureRegistry) (scope : SharedFixtureScope) (suite fixture_name : Bytes)
    → All (λ e. has_instance e.shared_instance ≡ false) reg.entries
    → (get_shared_fixture scope suite fixture_name reg).0 ≡ none
get_shared_fixture-empty reg scope suite fixture_name h =
    let g = get_shared_fixture scope suite fixture_name reg in
    elim (Option-cases g.0) [
      | inl n ↦ n
      | inr (address, n) ↦
          (let (no_error, (e, m, fits, gives, longest)) =
              get_shared_fixture_sound scope suite fixture_name reg address g.1
                (ap (λ o. (o, g.1)) n) in
            absurd (
              not-Mem (λ x. has_instance x.shared_instance) e reg.entries h
                (ap has_instance gives.shared_instance) m))
    ]

after_teardown-empty :
    (es : List SharedFixtureEntry)
    → All (λ e. has_instance e.shared_instance ≡ false) (all_after_teardown es)
after_teardown-empty [] = tt
after_teardown-empty (e ∷ es) = (emptied (torn_address e), after_teardown-empty es)
  where
    emptied : (o : Option ℕ) → has_instance (after_teardown o e).shared_instance ≡ false
    emptied none = refl
    emptied (some address) = refl

module _ {W : Type 0} (calls : Callbacks W) (caller : ℕ) (gate : SharedFixtureRunGate) where
  -- In an active run of the calling thread, with no registration error and no teardown under way, the
  -- setup ends, and if it reports success, every lookup that a registered fixture fits returns the
  -- address of an instance, with no error.
  pub setup_shared_fixtures-available :
      (reg : SharedFixtureRegistry) (t : Thread W)
      → has_run caller gate ≡ true
      → reg.registration_error ≡ false
      → reg.teardown_in_progress ≡ false
      → (s : Setting W) × (setup_shared_fixtures calls caller gate reg t ≡ some s)
        × (s.ok ≡ true
            → (scope : SharedFixtureScope) (suite fixture_name : Bytes) (e : SharedFixtureEntry)
            → Mem e reg.entries
            → Fits scope suite fixture_name e
            → (address : ℕ) × (get_shared_fixture scope suite fixture_name s.reg
                ≡ (some address, [])))
  setup_shared_fixtures-available reg t g r h =
      let es' = (set_up_all calls (map reset_entry reg.entries) t).0.1 in
      let each = set_up_all-EachSetUp calls reg.entries t in
      (
        _,
        setup_shared_fixtures-pass calls caller gate reg t g r h,
        λ ok scope suite fixture_name e m fits.
            get_shared_fixture-ready scope suite fixture_name (with_entries reg es') r
              ((set_up_all-IsReady calls (map reset_entry reg.entries) t).0 ok)
              λ none_fits.
                not-Mem (is_candidate scope suite fixture_name) e reg.entries
                  (no_candidate scope suite fixture_name reg.entries es' each none_fits)
                  ((is_candidate_iff scope suite fixture_name e).1 fits) m,
      )

  -- After a teardown by the thread of the active run, no lookup returns an instance.
  pub teardown_shared_fixtures-unavailable :
      (reg : SharedFixtureRegistry) (errors : Option (List Bytes)) (t : Thread W)
      (scope : SharedFixtureScope) (suite fixture_name : Bytes)
      → has_run caller gate ≡ true
      → let torn = teardown_shared_fixtures calls caller gate reg errors t in
        (get_shared_fixture scope suite fixture_name torn.reg).0 ≡ none
  unfolding set_teardown
  teardown_shared_fixtures-unavailable reg errors t scope suite fixture_name g =
      rw (teardown_shared_fixtures-reverse calls caller gate reg errors t g) (
        get_shared_fixture-empty
          (set_teardown false (with_entries reg (all_after_teardown reg.entries))) scope suite
          fixture_name (after_teardown-empty reg.entries))
