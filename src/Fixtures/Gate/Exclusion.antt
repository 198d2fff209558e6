-- ===== src/Fixtures/Gate/Exclusion.antt =====
-- The run gate with any number of sessions and threads, as a state machine.
use gentest.Base.{
  ℕ, ◌≡◌, refl, ◌⊎◌, inl, inr, true, false, not, ◌&&◌, ◌||◌, none, some, List, Bytes, ◌==◌, ==_iff,
  arith, if◌then◌else◌, if-cases,
}
use gentest.Fixtures.{SharedFixtureRunGate, SharedFixtureRuntimeSession, same_address}
use gentest.Fixtures.Gate.{Begun, begin_shared_fixture_run, Ended, end_shared_fixture_run, released}

-- The gate and the sessions, by number.
pub record Runs : Type 0 where
  pub gate : SharedFixtureRunGate
  pub sessions : ℕ → SharedFixtureRuntimeSession

abbrev pub set_session :
    ℕ
    → SharedFixtureRuntimeSession
    → (ℕ → SharedFixtureRuntimeSession)
    → ℕ
    → SharedFixtureRuntimeSession
set_session k session sessions j = if j == k then session else sessions j

abbrev pub begin_by : ℕ → ℕ → List Bytes → Runs → Runs
begin_by thread k errors s =
    let b = begin_shared_fixture_run thread errors (s.sessions k) s.gate in
    record { gate = b.gate; sessions = set_session k b.session s.sessions }

abbrev pub end_by : ℕ → ℕ → Runs → Runs
end_by thread k s =
    let e = end_shared_fixture_run thread (s.sessions k) s.gate in
    record { gate = e.gate; sessions = set_session k e.session s.sessions }

-- A thread begins or ends the run of a session.
pub data Step (s : Runs) : Runs → Type 0 where
  begins : (thread k : ℕ) (errors : List Bytes) → Step s (begin_by thread k errors s)
  ends : (thread k : ℕ) → Step s (end_by thread k s)

-- No run, and no session that owns the gate.
abbrev pub Idle : Runs → Type 0
Idle s = (s.gate.active ≡ false) × ((k : ℕ) → (s.sessions k).owns_gate ≡ false)

pub data Reachable : Runs → Type 0 where
  start : (s : Runs) → Idle s → Reachable s
  step : (s s' : Runs) → Reachable s → Step s s' → Reachable s'

-- The gate is active for a thread, which an owning session names, unless it was begun again.
abbrev pub Holds : SharedFixtureRunGate → SharedFixtureRuntimeSession → Type 0
Holds gate session =
    (gate.active ≡ true)
    × ((thread : ℕ) × (gate.owner ≡ some thread)
        × ((session.owner_thread ≡ some thread) ⊎ (session.owner_thread ≡ none)))

pub record IsExclusive (s : Runs) : Type 0 where
  pub held : (k : ℕ) → (s.sessions k).owns_gate ≡ true → Holds s.gate (s.sessions k)
  pub one : (j k : ℕ) → (s.sessions j).owns_gate ≡ true → (s.sessions k).owns_gate ≡ true → j ≡ k
  pub owned : s.gate.active ≡ true → (k : ℕ) × ((s.sessions k).owns_gate ≡ true)

-- The session is replaced by one that owns the gate as it does, and the gate stays.
kept-IsExclusive :
    (s : Runs) (k : ℕ) (x : SharedFixtureRuntimeSession)
    → x.owns_gate ≡ (s.sessions k).owns_gate
    → (x.owner_thread ≡ (s.sessions k).owner_thread) ⊎ (x.owner_thread ≡ none)
    → IsExclusive s
    → IsExclusive (record { gate = s.gate; sessions = set_session k x s.sessions })
kept-IsExclusive s k x ho ht v = record {
  held = λ j o. ground (arith, v.held j, v.held k, ==_iff j k);
  one = λ i j oi oj. ground (arith, v.one i j, v.one i k, v.one k j, ==_iff i k, ==_iff j k);
  owned = λ a. ((v.owned a).0, ground (arith, (v.owned a).1, ==_iff (v.owned a).0 k));
}

opened-IsExclusive :
    (s : Runs) (k thread : ℕ) (x : SharedFixtureRuntimeSession)
    → s.gate.active ≡ false
    → x.owns_gate ≡ true
    → x.owner_thread ≡ some thread
    → IsExclusive s
    → IsExclusive (record {
      gate = record { active = true; owner = some thread };
      sessions = set_session k x s.sessions;
    })
opened-IsExclusive s k thread x h ho ht v = record {
  held = λ j o. (refl, (thread, refl, inl ground (arith, v.held j, ==_iff j k)));
  one = λ i j oi oj. ground (arith, v.held i, v.held j, ==_iff i k, ==_iff j k);
  owned = λ a. (k, ground (arith, ==_iff k k));
}

closed-IsExclusive :
    (s : Runs) (k : ℕ) (x : SharedFixtureRuntimeSession) (gate : SharedFixtureRunGate)
    → (s.sessions k).owns_gate ≡ true
    → x.owns_gate ≡ false
    → gate.active ≡ false
    → IsExclusive s
    → IsExclusive (record { gate = gate; sessions = set_session k x s.sessions })
closed-IsExclusive s k x gate ho hx hg v = record {
  held = λ j o. absurd (ground (arith, v.one j k, ==_iff j k));
  one = λ i j oi oj. absurd (ground (arith, v.one i k, ==_iff i k));
  owned = λ a. absurd (ground arith);
}

begin_by-IsExclusive :
    (thread k : ℕ) (errors : List Bytes) (s : Runs)
    → IsExclusive s
    → IsExclusive (begin_by thread k errors s)
unfolding begin_shared_fixture_run
begin_by-IsExclusive thread k errors s v =
    if-cases P (s.sessions k).owns_gate _ _ (λ b. kept-IsExclusive s k _ refl (inr refl) v)
      λ b.
        if-cases P s.gate.active _ _ (λ h. kept-IsExclusive s k _ refl (inr refl) v)
          (λ h. opened-IsExclusive s k thread _ h refl refl v)
  where
    P : Begun → Type 0
    P b = IsExclusive (record { gate = b.gate; sessions = set_session k b.session s.sessions })

end_by-IsExclusive : (thread k : ℕ) (s : Runs) → IsExclusive s → IsExclusive (end_by thread k s)
unfolding end_shared_fixture_run released
end_by-IsExclusive thread k s v =
    if-cases P (s.sessions k).owns_gate _ _
      (λ b.
        if-cases P
          (s.gate.active
            && (not (same_address s.gate.owner (s.sessions k).owner_thread)
                || not (same_address s.gate.owner (some thread))))
          _ _ (λ h. kept-IsExclusive s k (s.sessions k) refl (inl refl) v)
          (λ h. closed-IsExclusive s k _ _ b refl (rw ((v.held k b).0) refl) v))
      (λ b. kept-IsExclusive s k (s.sessions k) refl (inl refl) v)
  where
    P : Ended → Type 0
    P e = IsExclusive (record { gate = e.gate; sessions = set_session k e.session s.sessions })

Step-IsExclusive : (s s' : Runs) → Step s s' → IsExclusive s → IsExclusive s'
Step-IsExclusive s s' (Step.begins thread k errors) v = begin_by-IsExclusive thread k errors s v
Step-IsExclusive s s' (Step.ends thread k) v = end_by-IsExclusive thread k s v

-- However threads begin and end runs, from no run on: at most one session owns the gate, and the gate
-- is active exactly while one does.
pub Reachable-IsExclusive : (s : Runs) → Reachable s → IsExclusive s
Reachable-IsExclusive s (Reachable.start _ idle) = record {
  held = λ k o. absurd (ground (arith, idle.1 k));
  one = λ j k oj ok. absurd (ground (arith, idle.1 j));
  owned = λ a. absurd (ground (arith, idle.0));
}
Reachable-IsExclusive s (Reachable.step s₀ _ r t) =
    Step-IsExclusive s₀ s t (Reachable-IsExclusive s₀ r)

pub end_shared_fixture_run-released :
    (thread : ℕ) (session : SharedFixtureRuntimeSession) (gate : SharedFixtureRunGate)
    → session.owns_gate ≡ true
    → gate.active ≡ true
    → gate.owner ≡ some thread
    → session.owner_thread ≡ some thread
    → end_shared_fixture_run thread session gate ≡ record {
      ok = true;
      gate = record { active = false; owner = none };
      session = released session;
      error = none;
    }
unfolding end_shared_fixture_run same_address
end_shared_fixture_run-released thread session gate o a h n =
    rw (o, a, h, n, (==_iff thread thread).1 refl) refl

begin_shared_fixture_run-free :
    (thread : ℕ) (errors : List Bytes) (session : SharedFixtureRuntimeSession)
    (gate : SharedFixtureRunGate)
    → session.owns_gate ≡ false
    → gate.active ≡ false
    → (begin_shared_fixture_run thread errors session gate).ok ≡ true
unfolding begin_shared_fixture_run
begin_shared_fixture_run-free thread errors session gate o a = rw (o, a) refl

-- In a reachable state, the thread that an owning session names can end the run; the session is
-- released then, and every thread can begin a run of every session.
pub end_by-progress :
    (s : Runs) (k thread : ℕ)
    → Reachable s
    → (s.sessions k).owns_gate ≡ true
    → (s.sessions k).owner_thread ≡ some thread
    → ((end_shared_fixture_run thread (s.sessions k) s.gate).ok ≡ true)
      × ((j t : ℕ) (errors : List Bytes)
          → let s' = end_by thread k s in
            (begin_shared_fixture_run t errors (s'.sessions j) s'.gate).ok ≡ true)
unfolding released
end_by-progress s k thread r o h =
    let v = Reachable-IsExclusive s r in
    let (active, (t, owner, named)) = v.held k o in
    let same : s.gate.owner ≡ some thread = ground (arith, named, owner) in
    let e = end_shared_fixture_run-released thread (s.sessions k) s.gate o active same h in
    rw e (
      refl,
      λ j u errors.
          begin_shared_fixture_run-free u errors _ _ ground (arith, v.one j k, ==_iff j k) refl,
    )

-- A session that owns the gate and is begun again is refused, but it no longer names its thread: no
-- thread can release it any more, and the gate stays active.
pub begin_shared_fixture_run-lost :
    (thread : ℕ) (errors : List Bytes) (session : SharedFixtureRuntimeSession)
    (gate : SharedFixtureRunGate) (owner : ℕ)
    → session.owns_gate ≡ true
    → gate.active ≡ true
    → gate.owner ≡ some owner
    → let b = begin_shared_fixture_run thread errors session gate in
      (b.ok ≡ false)
      × ((t : ℕ)
          → let e = end_shared_fixture_run t b.session b.gate in
            (e.ok ≡ false) × (e.gate.active ≡ true) × (e.session.owner_thread ≡ none))
unfolding begin_shared_fixture_run end_shared_fixture_run same_address
begin_shared_fixture_run-lost thread errors session gate owner o a h =
    rw (o, a, h) (refl, λ t. (refl, refl, refl))
