-- ===== src/Fixtures/Setup/Outcome.antt =====
-- What the setup of the fixtures achieves.
use gentest.Base.{
  ℕ, ◌≡◌, refl, ◌⊎◌, ◌↔◌, inl, inr, Bool, true, false, ◌&&◌, some, List, [], ◌∷◌, arith, All, map,
}
use gentest.Fixtures.{SharedFixtureEntry, SharedFixtureRegistry, SharedFixtureRunGate}
use gentest.Fixtures.Phase.{Thread, Callbacks}
use gentest.Fixtures.Setup.{reset_entry, allocate, Setting, has_run, setup_shared_fixtures}
use gentest.Fixtures.Setup.Pass.{set_up, set_up_all}
use gentest.Fixtures.Setup.States.{IsReady, IsBroken, SameRegistration, IsSetUp, settled_as-IsSetUp}
use gentest.Fixtures.Setup.Loop.{setup_shared_fixtures-pass}

-- Entry by entry, a fixture is ready or has failed, with its registration as it was.
abbrev pub EachSetUp : List SharedFixtureEntry → List SharedFixtureEntry → Type 0
EachSetUp [] [] = Unit {0}
EachSetUp (e ∷ es) (e' ∷ es') =
    (IsReady e' ⊎ IsBroken e') × SameRegistration e' e × EachSetUp es es'
EachSetUp _ _ = ⊥

reset-SameRegistration :
    (e e' : SharedFixtureEntry) → SameRegistration e' (reset_entry e) → SameRegistration e' e
unfolding reset_entry
reset-SameRegistration e e' s = record {
  fixture_name = s.fixture_name;
  suite = s.suite;
  scope = s.scope;
  create = s.create;
  setup = s.setup;
  teardown = s.teardown;
}

IsSetUp-IsReady :
    (e : SharedFixtureEntry) (p : Bool × SharedFixtureEntry)
    → IsSetUp e p
    → (p.0 ≡ true) ↔ IsReady p.1
IsSetUp-IsReady e p (inl h, s) = ((λ o. h.1), (λ r. h.0))
IsSetUp-IsReady e p (inr h, s) =
    ((λ o. absurd (ground arith)), (λ r. absurd (ground (arith, r.failed, h.1.failed))))

both-ready :
    (a b : Bool) (P Q : Type 0) → (a ≡ true) ↔ P → (b ≡ true) ↔ Q → ((a && b) ≡ true) ↔ (P × Q)
both-ready true b P Q p q = ((λ h. (p.0 refl, q.0 h)), (λ h. q.1 h.1))
both-ready false b P Q p q = ((λ h. absurd (ground arith)), (λ h. p.1 h.0))

module _ {W : Type 0} (calls : Callbacks W) where
  pub set_up_all-EachSetUp :
      (es : List SharedFixtureEntry) (t : Thread W)
      → EachSetUp es (set_up_all calls (map reset_entry es) t).0.1
  set_up_all-EachSetUp [] t = tt
  set_up_all-EachSetUp (e ∷ es) t =
      let x = reset_entry e in
      let h = settled_as-IsSetUp calls x (allocate calls x.create x.suite t) in
      (
        elim h.0 [ inl k ↦ inl k.1 | inr k ↦ inr k.1 ],
        reset-SameRegistration e _ h.1,
        set_up_all-EachSetUp es (set_up calls x t).1,
      )

  pub set_up_all-IsReady :
      (es : List SharedFixtureEntry) (t : Thread W)
      → ((set_up_all calls es t).0.0 ≡ true) ↔ All IsReady (set_up_all calls es t).0.1
  set_up_all-IsReady [] t = ((λ h. tt), (λ h. refl))
  set_up_all-IsReady (e ∷ es) t =
      both-ready _ _ _ _
        (IsSetUp-IsReady e (set_up calls e t).0
          (settled_as-IsSetUp calls e (allocate calls e.create e.suite t)))
        (set_up_all-IsReady es (set_up calls e t).1)

  -- In an active run of the calling thread, with no registration error and no teardown under way, the
  -- setup ends; every fixture is then either initialized with an address or failed with an error
  -- text, none is left in between, the registrations are what they were, and the setup reports
  -- success exactly if all fixtures are initialized.
  pub setup_shared_fixtures-EachSetUp :
      (caller : ℕ) (gate : SharedFixtureRunGate) (reg : SharedFixtureRegistry) (t : Thread W)
      → has_run caller gate ≡ true
      → reg.registration_error ≡ false
      → reg.teardown_in_progress ≡ false
      → (s : Setting W) × (setup_shared_fixtures calls caller gate reg t ≡ some s)
        × EachSetUp reg.entries s.reg.entries
        × ((s.ok ≡ true) ↔ All IsReady s.reg.entries)
  setup_shared_fixtures-EachSetUp caller gate reg t g r h = (
    _,
    setup_shared_fixtures-pass calls caller gate reg t g r h,
    set_up_all-EachSetUp reg.entries t,
    set_up_all-IsReady (map reset_entry reg.entries) t,
  )
