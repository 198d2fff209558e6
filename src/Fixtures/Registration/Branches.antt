-- ===== src/Fixtures/Registration/Branches.antt =====
-- What a registration does, by its branches.
use mathlib.Core.List.Perm
use mathlib.Core.List.{mem-cons_self, mem-cons_of_mem}
use gentest.Base.{
  ◌≡◌, refl, ◌⊎◌, ◌↔◌, inl, inr, ◌≢◌, true, false, not, ◌&&◌, List, [], ◌∷◌, Bytes, bytes_eq,
  bytes_eq_iff, arith, Bool-cases, All, Perm, Mem, if-cases, Option, ℕ,
}
use gentest.Fixtures.{
  SharedFixtureEntry, SharedFixtureRegistry, SharedFixtureRunGate, same_scope, same_address,
  shared_fixture_order_less,
}
use gentest.Fixtures.Order.{SameKey, same_scope_iff}
use gentest.Fixtures.Registration.{
  Scan, scan_entry, scan_entries, insert_entry, registration_failed, register_entry, after_scan,
  shared_fixture_callbacks_match, conflicting_callbacks, conflicting_scopes, run_is_active,
}
use gentest.Fixtures.Registration.Validity.{IsNew, scan_unknown}

abbrev pub SameCallbacks : SharedFixtureEntry → SharedFixtureEntry → Type 0
SameCallbacks a b = (a.create ≡ b.create) × (a.setup ≡ b.setup) × (a.teardown ≡ b.teardown)

same_address_iff : (a b : Option ℕ) → (same_address a b ≡ true) ↔ (a ≡ b)
unfolding same_address
same_address_iff a b = ground arith

-- The registered fixture forbids the new one, with this message.
abbrev pub Conflicts : Bytes → SharedFixtureEntry → SharedFixtureEntry → Type 0
Conflicts msg new e =
    (SameKey e new × (SameCallbacks e new → ⊥) × (msg ≡ conflicting_callbacks new.fixture_name))
    ⊎ ((e.fixture_name ≡ new.fixture_name)
        × (e.scope ≢ new.scope)
        × (msg ≡ conflicting_scopes new.fixture_name))

abbrev pub Repeats : SharedFixtureEntry → SharedFixtureEntry → Type 0
Repeats new e = SameKey e new × SameCallbacks e new

-- What may become of a registry.
pub data Registered (gate : SharedFixtureRunGate) (new : SharedFixtureEntry)
    (reg : SharedFixtureRegistry) : SharedFixtureRegistry → Type 0 where
  during_run :
      gate.active ≡ true
      → Registered gate new reg (registration_failed (run_is_active new.fixture_name) reg)
  conflicting :
      (e : SharedFixtureEntry) (msg : Bytes)
      → gate.active ≡ false
      → Mem e reg.entries
      → Conflicts msg new e
      → Registered gate new reg (registration_failed msg reg)
  repeated :
      (e : SharedFixtureEntry)
      → gate.active ≡ false
      → Mem e reg.entries
      → Repeats new e
      → Registered gate new reg reg
  added :
      (es : List SharedFixtureEntry)
      → gate.active ≡ false
      → All (IsNew new) reg.entries
      → Perm es (new ∷ reg.entries)
      → Registered gate new reg (record reg { entries = es })

callbacks_match_iff :
    (e new : SharedFixtureEntry)
    → (shared_fixture_callbacks_match e new.create new.setup new.teardown ≡ true)
      ↔ SameCallbacks e new
unfolding shared_fixture_callbacks_match
callbacks_match_iff e new = ground (
  arith,
  same_address_iff e.create new.create,
  same_address_iff e.setup new.setup,
  same_address_iff e.teardown new.teardown,
)

-- What is known where the scan stops.
abbrev Stops : SharedFixtureEntry → List SharedFixtureEntry → Scan → Type 0
Stops new es Scan.unknown = Unit {0}
Stops new es Scan.repeated = (e : SharedFixtureEntry) × Mem e es × Repeats new e
Stops new es (Scan.conflict msg) = (e : SharedFixtureEntry) × Mem e es × Conflicts msg new e

Stops-tail :
    (new e : SharedFixtureEntry) (es : List SharedFixtureEntry) (s : Scan)
    → Stops new es s
    → Stops new (e ∷ es) s
Stops-tail new e es Scan.unknown h = tt
Stops-tail new e es Scan.repeated (x, m, h) = (x, mem-cons_of_mem e m, h)
Stops-tail new e es (Scan.conflict msg) (x, m, h) = (x, mem-cons_of_mem e m, h)

scan_entry-Stops :
    (new e : SharedFixtureEntry) (es : List SharedFixtureEntry) (rest : Scan)
    → Stops new es rest
    → Stops new (e ∷ es) (scan_entry new e rest)
unfolding scan_entry
scan_entry-Stops new e es rest h =
    elim (Bool-cases (
      bytes_eq e.fixture_name new.fixture_name
      && bytes_eq e.suite new.suite
      && same_scope e.scope new.scope)) [
        | inl k ↦
            elim (Bool-cases (shared_fixture_callbacks_match e new.create new.setup new.teardown)) [
              | inl c ↦ rw (k, c) (e, mem-cons_self, (key k, (callbacks_match_iff e new).0 c))
              | inr c ↦ rw (k, c) (e, mem-cons_self, inl (key k, no_match c, refl))
            ]
        | inr k ↦
            elim (Bool-cases
              (bytes_eq e.fixture_name new.fixture_name && not (same_scope e.scope new.scope))) [
                | inl c ↦ rw (k, c) (e, mem-cons_self, inr (other_scope c))
                | inr c ↦ rw (k, c) (Stops-tail new e es rest h)
              ]
      ]
  where
    key :
        (bytes_eq e.fixture_name new.fixture_name
            && bytes_eq e.suite new.suite
            && same_scope e.scope new.scope)
          ≡ true
        → SameKey e new
    key h = ground (
      arith,
      bytes_eq_iff e.fixture_name new.fixture_name,
      bytes_eq_iff e.suite new.suite,
      same_scope_iff e.scope new.scope,
    )

    no_match :
        shared_fixture_callbacks_match e new.create new.setup new.teardown ≡ false
        → SameCallbacks e new
        → ⊥
    no_match c h = ground (arith, (callbacks_match_iff e new).1 h)

    other_scope :
        (bytes_eq e.fixture_name new.fixture_name && not (same_scope e.scope new.scope)) ≡ true
        → (e.fixture_name ≡ new.fixture_name)
          × (e.scope ≢ new.scope)
          × (conflicting_scopes e.fixture_name ≡ conflicting_scopes new.fixture_name)
    other_scope c =
        ground
          (arith, bytes_eq_iff e.fixture_name new.fixture_name, same_scope_iff e.scope new.scope)

scan_entries-Stops :
    (new : SharedFixtureEntry) (es : List SharedFixtureEntry) → Stops new es (scan_entries new es)
unfolding scan_entries
scan_entries-Stops new [] = tt
scan_entries-Stops new (e ∷ es) =
    scan_entry-Stops new e es (scan_entries new es) (scan_entries-Stops new es)

insert_entry-perm :
    (new : SharedFixtureEntry) (es : List SharedFixtureEntry)
    → Perm (insert_entry new es) (new ∷ es)
unfolding insert_entry
insert_entry-perm new [] = Perm.refl (new ∷ [])
insert_entry-perm new (e ∷ es) =
    if-cases (λ r. Perm r (new ∷ e ∷ es)) (shared_fixture_order_less e new) _ _
      (λ b. Perm.trans (Perm.cons e (insert_entry-perm new es)) (Perm.swap new e es))
      (λ b. Perm.refl (new ∷ e ∷ es))

-- A registration is refused with a text while a run is active, or where a registered fixture has the
-- same key and other callbacks, or the same name and another scope; it changes nothing where it
-- repeats another with the same callbacks; and else, its key and the scope of its name being new, it
-- adds the entry to the registry and keeps every other.
pub register_entry-Registered :
    (gate : SharedFixtureRunGate) (new : SharedFixtureEntry) (reg : SharedFixtureRegistry)
    → Registered gate new reg (register_entry gate new reg)
unfolding register_entry
register_entry-Registered gate new reg =
    if-cases (Registered gate new reg) gate.active _ _ (λ b. Registered.during_run b)
      λ b. after (scan_entries new reg.entries) b refl (scan_entries-Stops new reg.entries)
  where
    after :
        (s : Scan)
        → gate.active ≡ false
        → scan_entries new reg.entries ≡ s
        → Stops new reg.entries s
        → Registered gate new reg (after_scan s new reg)
    after Scan.unknown b e h =
        Registered.added _ b (scan_unknown new reg.entries e) (insert_entry-perm new reg.entries)
    after Scan.repeated b e (x, m, h) = Registered.repeated x b m h
    after (Scan.conflict msg) b e (x, m, h) = Registered.conflicting x msg b m h
