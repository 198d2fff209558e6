-- ===== src/Fixtures/Registration/Validity.antt =====
-- The order and the uniqueness of the registered fixtures.
use gentest.Base.{
  ◌≡◌, refl, inl, inr, sym, true, not, List, [], ◌∷◌, ◌++◌, Bytes, bytes_eq_iff, arith, All,
  is_empty, Option, ℕ, if-cases,
}
use gentest.Results.Execute.{SharedFixtureScope}
use gentest.Fixtures.{
  SharedFixtureEntry, SharedFixtureRegistry, SharedFixtureRunGate, shared_fixture_order_less,
}
use gentest.Fixtures.Order.{SameKey, same_scope_iff, order_less_trans, order_less_total}
use gentest.Fixtures.Registration.{
  Scan, scan_entry, scan_entries, insert_entry, registration_failed, register_entry, fresh_entry,
  after_scan, register_shared_fixture,
}

abbrev pub Before : SharedFixtureEntry → SharedFixtureEntry → Type 0
Before a b = shared_fixture_order_less a b ≡ true

abbrev pub IsSorted : List SharedFixtureEntry → Type 0
IsSorted [] = Unit {0}
IsSorted (e ∷ es) = All (Before e) es × IsSorted es

abbrev pub SameScope : SharedFixtureEntry → SharedFixtureEntry → Type 0
SameScope a b = a.fixture_name ≡ b.fixture_name → a.scope ≡ b.scope

-- No fixture has two scopes.
abbrev pub IsScoped : List SharedFixtureEntry → Type 0
IsScoped [] = Unit {0}
IsScoped (e ∷ es) = All (SameScope e) es × IsScoped es

-- The registry is in strict order, so that no key stands twice, and has an error exactly when it
-- has the text of one.
pub record IsValid (reg : SharedFixtureRegistry) : Type 0 where
  pub sorted : IsSorted reg.entries
  pub scoped : IsScoped reg.entries
  pub reported : reg.registration_error ≡ not (is_empty reg.registration_errors)

-- No conflict and no repetition.
abbrev pub IsNew : SharedFixtureEntry → SharedFixtureEntry → Type 0
IsNew new e = (SameKey e new → ⊥) × SameScope e new

pub scan_unknown :
    (new : SharedFixtureEntry) (es : List SharedFixtureEntry)
    → scan_entries new es ≡ Scan.unknown
    → All (IsNew new) es
unfolding scan_entries scan_entry
scan_unknown new [] h = tt
scan_unknown new (e ∷ es) h = ground (
  arith,
  scan_unknown new es,
  bytes_eq_iff e.fixture_name new.fixture_name,
  bytes_eq_iff e.suite new.suite,
  same_scope_iff e.scope new.scope,
)

module _ (P : SharedFixtureEntry → Type 0) (new : SharedFixtureEntry) where
  pub insert_entry-All :
      (es : List SharedFixtureEntry) → P new → All P es → All P (insert_entry new es)
  unfolding insert_entry
  insert_entry-All [] p h = (p, tt)
  insert_entry-All (e ∷ es) p h =
      if-cases (All P) (shared_fixture_order_less e new) _ _ (λ b. (h.0, insert_entry-All es p h.1))
        (λ b. (p, h))

All-trans :
    (a b : SharedFixtureEntry) (es : List SharedFixtureEntry)
    → Before a b
    → All (Before b) es
    → All (Before a) es
All-trans a b [] h k = tt
All-trans a b (e ∷ es) h k = (order_less_trans a b e h k.0, All-trans a b es h k.1)

insert_entry-IsSorted :
    (new : SharedFixtureEntry) (es : List SharedFixtureEntry)
    → All (IsNew new) es
    → IsSorted es
    → IsSorted (insert_entry new es)
unfolding insert_entry
insert_entry-IsSorted new [] n h = (tt, tt)
insert_entry-IsSorted new (e ∷ es) n h =
    if-cases IsSorted (shared_fixture_order_less e new) _ _
      (λ b. (insert_entry-All (Before e) new es b h.0, insert_entry-IsSorted new es n.1 h.1))
      λ b. elim (order_less_total e new b) [
        | inl l ↦ ((l, All-trans new e es l h.0), h)
        | inr same ↦ absurd (n.0.0 same)
      ]

SameScope-flip :
    (new : SharedFixtureEntry) (es : List SharedFixtureEntry)
    → All (IsNew new) es
    → All (SameScope new) es
SameScope-flip new [] n = tt
SameScope-flip new (e ∷ es) n = ((λ s. sym (n.0.1 (sym s))), SameScope-flip new es n.1)

insert_entry-IsScoped :
    (new : SharedFixtureEntry) (es : List SharedFixtureEntry)
    → All (IsNew new) es
    → IsScoped es
    → IsScoped (insert_entry new es)
unfolding insert_entry
insert_entry-IsScoped new [] n h = (tt, tt)
insert_entry-IsScoped new (e ∷ es) n h =
    if-cases IsScoped (shared_fixture_order_less e new) _ _
      (λ b. (insert_entry-All (SameScope e) new es n.0.1 h.0, insert_entry-IsScoped new es n.1 h.1))
      (λ b. (SameScope-flip new (e ∷ es) n, h))

registration_failed-IsValid :
    (msg : Bytes) (reg : SharedFixtureRegistry)
    → IsValid reg
    → IsValid (registration_failed msg reg)
unfolding registration_failed
registration_failed-IsValid msg reg v = record {
  sorted = v.sorted;
  scoped = v.scoped;
  reported = is_filled reg.registration_errors;
}
  where
    is_filled : (msgs : List Bytes) → true ≡ not (is_empty (msgs ++ msg ∷ []))
    is_filled [] = refl
    is_filled (m ∷ msgs) = refl

register_entry-IsValid :
    (gate : SharedFixtureRunGate) (new : SharedFixtureEntry) (reg : SharedFixtureRegistry)
    → IsValid reg
    → IsValid (register_entry gate new reg)
unfolding register_entry
register_entry-IsValid gate new reg v =
    if-cases IsValid gate.active _ _ (λ b. registration_failed-IsValid _ reg v)
      λ b. after_scan-IsValid (scan_entries new reg.entries) refl
  where
    after_scan-IsValid :
        (s : Scan) → scan_entries new reg.entries ≡ s → IsValid (after_scan s new reg)
    after_scan-IsValid Scan.unknown e = record {
      sorted = insert_entry-IsSorted new reg.entries (scan_unknown new reg.entries e) v.sorted;
      scoped = insert_entry-IsScoped new reg.entries (scan_unknown new reg.entries e) v.scoped;
      reported = v.reported;
    }
    after_scan-IsValid Scan.repeated e = v
    after_scan-IsValid (Scan.conflict msg) e = registration_failed-IsValid msg reg v

-- A registration keeps the registry in strict order of name, scope and suite, so that no fixture is
-- registered twice, keeps one scope for each name, and keeps the error flag in step with the texts.
pub register_shared_fixture-IsValid :
    (gate : SharedFixtureRunGate) (scope : SharedFixtureScope) (suite fixture_name : Bytes)
    (create setup teardown : Option ℕ) (reg : SharedFixtureRegistry)
    → IsValid reg
    → IsValid (register_shared_fixture gate scope suite fixture_name create setup teardown reg)
unfolding register_shared_fixture
register_shared_fixture-IsValid gate scope suite fixture_name create setup teardown reg v =
    register_entry-IsValid gate (fresh_entry scope suite fixture_name create setup teardown) reg v
