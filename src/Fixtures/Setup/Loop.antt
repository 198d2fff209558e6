-- ===== src/Fixtures/Setup/Loop.antt =====
-- The setup loop against a pass over the entries in order.
use gentest.Base.{
  ℕ, suc, ◌+◌, ◌≡◌, refl, sym, ap, ◌∙◌, Bool, true, false, ◌&&◌, Option, none, some, List, [], ◌∷◌,
  ◌++◌, Bytes, arith, length, All, All-append, map,
}
use gentest.Plan.Table.{modify}
use gentest.Fixtures.{SharedFixtureEntry, SharedFixtureRegistry, SharedFixtureRunGate}
use gentest.Fixtures.Phase.{Thread, Callbacks}
use gentest.Fixtures.Setup.{
  reset_entry, reset_shared_fixture_run_state, find_pending, mark_initializing, Setting, conclude,
  change_entry, allocate, run_setup, settle, setup_entry, setup_loop, has_run,
  setup_shared_fixtures,
}
use gentest.Fixtures.Setup.Pass.{concluded_as, settled_as, set_up, set_up_all, is_settled}
use gentest.Fixtures.Setup.States.{IsSetUp-settled, settled_as-IsSetUp}

find_pending-append :
    (i : ℕ) (done : List SharedFixtureEntry) (e : SharedFixtureEntry) (es : List SharedFixtureEntry)
    → All (λ x. is_settled x ≡ true) done
    → is_settled e ≡ false
    → find_pending i (done ++ e ∷ es) ≡ some (i + length done, e)
unfolding find_pending
find_pending-append i [] e es h n = ground arith
find_pending-append i (d ∷ done) e es h n =
    ground (arith, find_pending-append (suc i) done e es h.1 n, h.0)

find_pending-first :
    (done : List SharedFixtureEntry) (e : SharedFixtureEntry) (es : List SharedFixtureEntry)
    → All (λ x. is_settled x ≡ true) done
    → is_settled e ≡ false
    → find_pending 0 (done ++ e ∷ es) ≡ some (length done, e)
find_pending-first done e es h n = ground (arith, find_pending-append 0 done e es h n)

find_pending-settled :
    (i : ℕ) (done : List SharedFixtureEntry)
    → All (λ x. is_settled x ≡ true) done
    → find_pending i done ≡ none
unfolding find_pending
find_pending-settled i [] h = refl
find_pending-settled i (d ∷ done) h = ground (arith, find_pending-settled (suc i) done h.1, h.0)

pub modify-append :
    (f : SharedFixtureEntry → SharedFixtureEntry) (done : List SharedFixtureEntry)
    (e : SharedFixtureEntry) (es : List SharedFixtureEntry)
    → modify (length done) f (done ++ e ∷ es) ≡ done ++ f e ∷ es
unfolding modify
modify-append f [] e es = refl
modify-append f (d ∷ done) e es = ap (λ r. d ∷ r) (modify-append f done e es)

abbrev pub with_entries : SharedFixtureRegistry → List SharedFixtureEntry → SharedFixtureRegistry
with_entries reg es = record reg { entries = es }

-- The loop after the entries `done`, the entry `r` and before `es`.
abbrev reached :
    {W : Type 0}
    → Bool
    → SharedFixtureRegistry
    → List SharedFixtureEntry
    → List SharedFixtureEntry
    → (Bool × SharedFixtureEntry) × Thread W
    → Setting W
reached ok reg done es r = record {
  ok = ok && r.0.0;
  reg = with_entries reg (done ++ r.0.1 ∷ es);
  thread = r.1;
}

pub and-false : (b : Bool) → (b && false) ≡ false
and-false b = ground arith

pub and-right : (b : Bool) → (b && true) ≡ b
and-right b = ground arith

module _ {W : Type 0} (ok : Bool) (reg : SharedFixtureRegistry)
    (done es : List SharedFixtureEntry) where
  conclude-append :
      (e : SharedFixtureEntry) (r : (Bool × Bytes) × Thread W)
      → conclude (length done) ok (with_entries reg (done ++ e ∷ es)) r
        ≡ reached ok reg done es (concluded_as e r)
  unfolding conclude change_entry
  conclude-append e ((true, error), t) = rw (modify-append, and-right) refl
  conclude-append e ((false, error), t) = rw (modify-append, and-false) refl

  settle-append :
      (calls : Callbacks W) (e : SharedFixtureEntry) (a : (Option ℕ × Bytes) × Thread W)
      → settle calls (length done) e ok (with_entries reg (done ++ mark_initializing e ∷ es)) a
        ≡ reached ok reg done es (settled_as calls (mark_initializing e) a)
  unfolding settle change_entry mark_initializing
  settle-append calls e ((none, error), t) = rw (modify-append, and-false) refl
  settle-append calls e ((some address, error), t) =
      rw modify-append (conclude-append _ (run_setup calls e.setup address t))

  setup_entry-append :
      (calls : Callbacks W) (e : SharedFixtureEntry) (t : Thread W)
      → setup_entry calls
          (length done)
          e
          (record { ok = ok; reg = with_entries reg (done ++ e ∷ es); thread = t })
        ≡ reached ok reg done es (set_up calls e t)
  unfolding setup_entry change_entry
  setup_entry-append calls e t =
      rw modify-append (settle-append calls e (allocate calls e.create e.suite t))

pub snoc-append :
    (done : List SharedFixtureEntry) (e : SharedFixtureEntry) (es : List SharedFixtureEntry)
    → (done ++ e ∷ []) ++ es ≡ done ++ e ∷ es
snoc-append [] e es = refl
snoc-append (d ∷ done) e es = ap (λ r. d ∷ r) (snoc-append done e es)

and_assoc : (a b c : Bool) → ((a && b) && c) ≡ (a && (b && c))
and_assoc a b c = ground arith

module _ {W : Type 0} (calls : Callbacks W) where
  setup_loop-last :
      (fuel : ℕ) (s : Setting W)
      → s.reg.teardown_in_progress ≡ false
      → find_pending 0 s.reg.entries ≡ none
      → setup_loop calls (suc fuel) s ≡ some s
  unfolding setup_loop
  setup_loop-last fuel s h n = ground arith

  setup_loop-next :
      (fuel i : ℕ) (e : SharedFixtureEntry) (s : Setting W)
      → s.reg.teardown_in_progress ≡ false
      → find_pending 0 s.reg.entries ≡ some (i, e)
      → setup_loop calls (suc fuel) s ≡ setup_loop calls fuel (setup_entry calls i e s)
  unfolding setup_loop
  setup_loop-next fuel i e s h n = ground arith

module _ {W : Type 0} (calls : Callbacks W) (reg : SharedFixtureRegistry) where
  -- The loop behind the entries `done` passes over the rest.
  setup_loop-append :
      (done es : List SharedFixtureEntry) (ok : Bool) (t : Thread W)
      → reg.teardown_in_progress ≡ false
      → All (λ e. is_settled e ≡ true) done
      → All (λ e. is_settled e ≡ false) es
      → let ((oks, es'), t') = set_up_all calls es t in
        setup_loop calls
          (suc (length es))
          (record { ok = ok; reg = with_entries reg (done ++ es); thread = t })
        ≡ some (record { ok = ok && oks; reg = with_entries reg (done ++ es'); thread = t' })
  setup_loop-append done [] ok t h hd he =
      setup_loop-last calls 0 _ h (find_pending-settled 0 (done ++ []) (All-append _ done [] hd tt))
      ∙ ap (λ b. some (record { ok = b; reg = with_entries reg (done ++ []); thread = t }))
          (sym (and-right ok))
  setup_loop-append done (e ∷ es) ok t h hd he =
      let p = set_up calls e t in
      let r = set_up_all calls es p.1 in
      let settled =
        IsSetUp-settled e p.0 (settled_as-IsSetUp calls e (allocate calls e.create e.suite t)) in
      let ih =
        setup_loop-append (done ++ p.0.1 ∷ []) es (ok && p.0.0) p.1 h
          (All-append _ done (p.0.1 ∷ []) hd (settled, tt)) he.1 in
      setup_loop-next calls (suc (length es)) (length done) e _ h
        (find_pending-first done e es hd he.0)
      ∙ ap (setup_loop calls (suc (length es))) (setup_entry-append ok reg done es calls e t)
      ∙ rw (snoc-append done p.0.1 es, snoc-append done p.0.1 r.0.1, and_assoc ok p.0.0 r.0.0) at ih

reset-pending :
    (es : List SharedFixtureEntry) → All (λ e. is_settled e ≡ false) (map reset_entry es)
unfolding reset_entry
reset-pending [] = tt
reset-pending (e ∷ es) = (refl, reset-pending es)

length-map :
    (f : SharedFixtureEntry → SharedFixtureEntry) (es : List SharedFixtureEntry)
    → length es + 1 ≡ suc (length (map f es))
length-map f [] = omega arith
length-map f (e ∷ es) = omega (arith, length-map f es)

module _ {W : Type 0} (calls : Callbacks W) (caller : ℕ) (gate : SharedFixtureRunGate) where
  setup_shared_fixtures-looped :
      (reg : SharedFixtureRegistry) (t : Thread W)
      → has_run caller gate ≡ true
      → reg.registration_error ≡ false
      → setup_shared_fixtures calls caller gate reg t
        ≡ setup_loop calls
            (length reg.entries + 1)
            (record { ok = true; reg = reset_shared_fixture_run_state reg; thread = t })
  unfolding setup_shared_fixtures
  setup_shared_fixtures-looped reg t g r = ground arith

  -- In an active run of the calling thread, with no registration error and no teardown under way, the
  -- setup ends within one iteration for each fixture and one more, and is one pass over the reset
  -- registry: each fixture is created and set up before the next one, in the order of the registry.
  pub setup_shared_fixtures-pass :
      (reg : SharedFixtureRegistry) (t : Thread W)
      → has_run caller gate ≡ true
      → reg.registration_error ≡ false
      → reg.teardown_in_progress ≡ false
      → let ((oks, es'), t') = set_up_all calls (map reset_entry reg.entries) t in
        setup_shared_fixtures calls caller gate reg t
        ≡ some (record { ok = oks; reg = with_entries reg es'; thread = t' })
  unfolding reset_shared_fixture_run_state
  setup_shared_fixtures-pass reg t g r h =
      let es = map reset_entry reg.entries in
      let start : Setting W = record { ok = true; reg = with_entries reg es; thread = t } in
      setup_shared_fixtures-looped reg t g r
      ∙ ap (λ fuel. setup_loop calls fuel start) (length-map reset_entry reg.entries)
      ∙ setup_loop-append calls reg [] es true t h tt (reset-pending reg.entries)
