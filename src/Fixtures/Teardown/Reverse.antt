-- ===== src/Fixtures/Teardown/Reverse.antt =====
-- The teardown against a pass over the entries from the last to the first.
use mathlib.Core.Option
use mathlib.Core.List.{append-nil, append_assoc}
use gentest.Base.{
  ℕ, suc, ◌≡◌, refl, sym, ap, ◌∙◌, Bool, true, false, ◌&&◌, ◌||◌, ◌⊎◌, inl, inr, Bool-cases, Option,
  none, some, List, [], ◌∷◌, ◌++◌, Bytes, codes, arith, length, length-append, is_empty,
  if◌then◌else◌,
}
use gentest.Fixtures.{SharedFixtureEntry, SharedFixtureRegistry, SharedFixtureRunGate}
use gentest.Fixtures.Phase.{Thread, Callbacks}
use gentest.Fixtures.Setup.{change_entry, has_run}
use gentest.Fixtures.Setup.Loop.{with_entries, modify-append, snoc-append, and-false}
use gentest.Fixtures.Teardown.{
  TeardownWorkItem, work_item, drop_instance, collect_entry, collect_work, Torn, run_teardown,
  teardown_message, push_error, forget_instance, torn_item, run_work, set_teardown,
  teardown_shared_fixtures,
}
use gentest.Fixtures.Teardown.Pass.{
  torn_address, torn_as, call_teardown, tear_down_all, after_teardown, all_after_teardown,
}

abbrev item : ℕ → SharedFixtureEntry → ℕ → TeardownWorkItem
item i e address = record {
  index = i;
  fixture_name = e.fixture_name;
  shared_instance = address;
  teardown = e.teardown;
}

-- The address that is torn down, if the entry has this one.
abbrev address_of : SharedFixtureEntry → Option ℕ → Option ℕ
address_of e none = none
address_of e (some address) = if e.initialized || e.failed then some address else none

torn_address_lem :
    (e : SharedFixtureEntry) (o : Option ℕ)
    → e.shared_instance ≡ o
    → torn_address e ≡ address_of e o
torn_address_lem e none h = rw h refl
torn_address_lem e (some address) h = rw h refl

work_item-cases :
    (i : ℕ) (e : SharedFixtureEntry) (o : Option ℕ)
    → ((work_item i e o ≡ none) × (address_of e o ≡ none))
      ⊎ ((address : ℕ) × (work_item i e o ≡ some (item i e address))
          × (address_of e o ≡ some address))
unfolding work_item
work_item-cases i e none = inl (refl, refl)
work_item-cases i e (some address) = elim (Bool-cases (e.initialized || e.failed)) [
  | inl b ↦ inr (address, rw b refl, rw b refl)
  | inr b ↦ inl (rw b refl, rw b refl)
]

torn_as-run_teardown :
    {W : Type 0} (calls : Callbacks W) (e : SharedFixtureEntry) (teardown : Option ℕ) (address : ℕ)
    (t : Thread W)
    → torn_as e (run_teardown calls teardown address t) ≡ call_teardown calls e teardown address t
unfolding run_teardown
torn_as-run_teardown calls e none address t = refl
torn_as-run_teardown calls e (some teardown) address t = refl

-- The state of the second loop.
abbrev state_at :
    {W : Type 0}
    → SharedFixtureRegistry
    → Bool
    → Option (List Bytes)
    → List SharedFixtureEntry
    → List Bytes × Thread W
    → Torn W
state_at reg ok errors es r = record {
  ok = ok && is_empty r.0;
  reg = with_entries reg es;
  errors = Option.map (λ xs. xs ++ r.0) errors;
  thread = r.1;
}

is_empty-append :
    (ok : Bool) (xs ys : List Bytes)
    → ((ok && is_empty xs) && is_empty ys) ≡ (ok && is_empty (xs ++ ys))
is_empty-append ok [] ys = ground arith
is_empty-append ok (x ∷ xs) ys = ground arith

map-append_twice :
    (errors : Option (List Bytes)) (xs ys : List Bytes)
    → Option.map (λ zs. zs ++ ys) (Option.map (λ zs. zs ++ xs) errors)
      ≡ Option.map (λ zs. zs ++ (xs ++ ys)) errors
map-append_twice none xs ys = refl
map-append_twice (some zs) xs ys = ap some (append_assoc zs xs ys)

map-append_nothing : (errors : Option (List Bytes)) → Option.map (λ zs. zs ++ []) errors ≡ errors
map-append_nothing none = refl
map-append_nothing (some zs) = ap some (append-nil zs)

module _ {W : Type 0} (calls : Callbacks W) where
  run_work-append :
      (work work' : List TeardownWorkItem) (s : Torn W)
      → run_work calls (work ++ work') s ≡ run_work calls work' (run_work calls work s)
  unfolding run_work
  run_work-append [] work' s = refl
  run_work-append (x ∷ work) work' s = run_work-append work work' _

module _ {W : Type 0} (reg : SharedFixtureRegistry) (ok : Bool) (errors : Option (List Bytes)) where
  torn_item-append :
      (done es : List SharedFixtureEntry) (e : SharedFixtureEntry) (address : ℕ)
      (later : List Bytes) (t : Thread W) (r : (Bool × Bytes) × Thread W)
      → torn_item
          (item (length done) e address)
          (state_at reg ok errors (done ++ e ∷ es) (later, t))
          r
        ≡ state_at reg ok errors
            (done ++ after_teardown (some address) e ∷ es)
            (later ++ (torn_as e r).0, (torn_as e r).1)
  unfolding torn_item change_entry push_error forget_instance teardown_message
  torn_item-append done es e address later t ((true, error), t') =
      rw (modify-append, append-nil) refl
  torn_item-append done es e address later t ((false, error), t') =
      let texts =
        (codes "fixture teardown failed for " ++ e.fixture_name ++ codes ": " ++ error) ∷ [] in
      rw
        (
          modify-append,
          map-append_twice errors later texts,
          sym (is_empty-append ok later texts),
          and-false,
        )
        refl

module _ {W : Type 0} (calls : Callbacks W) (reg : SharedFixtureRegistry) (ok : Bool)
    (errors : Option (List Bytes)) (t : Thread W) where
  run_work-collect :
      (i : ℕ) (done es : List SharedFixtureEntry)
      → length done ≡ i
      → run_work calls
          (collect_work i es).1
          (state_at reg ok errors (done ++ (collect_work i es).0) ([], t))
        ≡ state_at reg ok errors (done ++ all_after_teardown es) (tear_down_all calls es t)
  unfolding collect_work collect_entry run_work drop_instance
  run_work-collect i done [] h = refl
  run_work-collect i done (e ∷ es) h =
      let rest = collect_work (suc i) es in
      let later = tear_down_all calls es t in
      let behind : (x : SharedFixtureEntry)
          → run_work calls rest.1 (state_at reg ok errors (done ++ x ∷ rest.0) ([], t))
            ≡ state_at reg ok errors (done ++ x ∷ all_after_teardown es) later =
        λ x.
          rw (snoc-append done x rest.0, snoc-append done x (all_after_teardown es)) at
            (run_work-collect (suc i) (done ++ x ∷ []) es (longer x)) in
      elim (work_item-cases i e e.shared_instance) [
        | inl (n, n₀) ↦
            rw (n, torn_address_lem e e.shared_instance refl ∙ n₀)
              (rw (append-nil later.0) (behind (after_teardown none e)))
        | inr (address, n, n₀) ↦
            rw
              (
                n,
                torn_address_lem e e.shared_instance refl ∙ n₀,
                ← torn_as-run_teardown calls e e.teardown address later.1,
              )
              (run_work-append calls rest.1 (item i e address ∷ []) _
                ∙ ap (run_work calls (item i e address ∷ [])) (behind e)
                ∙ rw (sym h) (
                    torn_item-append reg ok errors done (all_after_teardown es) e address later.0
                      later.1 (run_teardown calls e.teardown address later.1)))
      ]
    where
      longer : (x : SharedFixtureEntry) → length (done ++ x ∷ []) ≡ suc i
      longer x = omega (arith, h, length-append done (x ∷ []))

module _ {W : Type 0} (calls : Callbacks W) (caller : ℕ) (gate : SharedFixtureRunGate) where
  -- In an active run of the calling thread, the teardown callbacks run for the fixtures that have an
  -- instance and were set up or failed, from the last of the registry to the first; the errors are
  -- appended in that order; the teardown succeeds if there is none; and no entry keeps its instance or
  -- stays initialized.
  pub teardown_shared_fixtures-reverse :
      (reg : SharedFixtureRegistry) (errors : Option (List Bytes)) (t : Thread W)
      → has_run caller gate ≡ true
      → let (texts, t') = tear_down_all calls reg.entries t in
        teardown_shared_fixtures calls caller gate reg errors t ≡ record {
          ok = is_empty texts;
          reg = record reg {
            entries = all_after_teardown reg.entries;
            teardown_in_progress = false;
          };
          errors = Option.map (λ xs. xs ++ texts) errors;
          thread = t';
        }
  unfolding teardown_shared_fixtures set_teardown
  teardown_shared_fixtures-reverse reg errors t g =
      let p = run_work-collect calls (set_teardown true reg) true errors t 0 [] reg.entries refl in
      let ended : Torn W → Torn W = λ s. record s { reg = set_teardown false s.reg } in
      rw (g) (ap ended (rw (map-append_nothing errors) at p))
