-- ===== src/Async/Scheduler/Owned.antt =====
-- What every operation on the scheduler keeps.
use gentest.Base.{
  ℕ, ◌+◌, ◌^◌, ◌≤◌, ◌<◌, ◌≡◌, refl, ◌≢◌, false, List, [], ◌∷◌, ◌++◌, Bytes, ◌==◌, arith, All,
  All-append, if-cases,
}
use gentest.Async.Timers.Due.{no_wrap}
use gentest.Async.Scheduler.{
  SuspendKind, BlockedHandle, AsyncFrame, SourceLocation, AsyncSchedulerCore, find, erase, assign,
  invalid_owner, owner_for_locked, next_suspend, set_blocked,
}

abbrev pub HasOwner : AsyncSchedulerCore → AsyncFrame → Type 0
HasOwner core f = (owner_for_locked f.address core == invalid_owner) ≡ false

abbrev pub HasDistinct : List (ℕ × BlockedHandle) → Type 0
HasDistinct [] = Unit {0}
HasDistinct (e ∷ es) = All (λ x. x.1.sequence ≢ e.1.sequence) es × HasDistinct es

-- A frame is found under its address, every ready frame has an owner, and the suspensions have
-- numbers of their own up to the last one.
pub record IsConsistent (core : AsyncSchedulerCore) : Type 0 where
  pub keyed : All (λ e. e.1.address ≡ e.0) core.frames
  pub owned : All (HasOwner core) core.ready
  pub numbered : All (λ e. e.1.sequence ≤ core.suspend_sequence) core.blocked
  pub distinct : HasDistinct core.blocked

module _ {V : Type 0} where
  pub find-erase :
      (key other : ℕ) (es : List (ℕ × V))
      → (other == key) ≡ false
      → find key (erase other es) ≡ find key es
  unfolding find erase
  find-erase key other [] h = refl
  find-erase key other ((k, v) ∷ es) h = ground (arith, find-erase key other es h)

  find-assign :
      (key other : ℕ) (v : V) (es : List (ℕ × V))
      → (other == key) ≡ false
      → find key (assign other v es) ≡ find key es
  unfolding assign find
  find-assign key other v es h = rw h (find-erase key other es h)

  pub erase-All :
      (P : ℕ × V → Type 0) (key : ℕ) (es : List (ℕ × V)) → All P es → All P (erase key es)
  unfolding erase
  erase-All P key [] h = tt
  erase-All P key ((k, v) ∷ es) h =
      if-cases (All P) (k == key) _ _ (λ b. erase-All P key es h.1)
        (λ b. (h.0, erase-All P key es h.1))

erase-HasDistinct :
    (key : ℕ) (es : List (ℕ × BlockedHandle)) → HasDistinct es → HasDistinct (erase key es)
unfolding erase
erase-HasDistinct key [] h = tt
erase-HasDistinct key ((k, b) ∷ es) h =
    if-cases HasDistinct (k == key) _ _ (λ q. erase-HasDistinct key es h.1)
      (λ q. (erase-All (λ x. x.1.sequence ≢ b.sequence) key es h.0, erase-HasDistinct key es h.1))

pub All-imp :
    {A : Type 0} (P Q : A → Type 0) (es : List A) → ((x : A) → P x → Q x) → All P es → All Q es
All-imp P Q [] f h = tt
All-imp P Q (x ∷ es) f h = (f x h.0, All-imp P Q es f h.1)

pub erase-IsConsistent :
    (address : ℕ) (core : AsyncSchedulerCore)
    → IsConsistent core
    → IsConsistent (record core { blocked = erase address core.blocked })
unfolding owner_for_locked
erase-IsConsistent address core v = record {
  keyed = v.keyed;
  owned = v.owned;
  numbered = erase-All (λ e. e.1.sequence ≤ core.suspend_sequence) address core.blocked v.numbered;
  distinct = erase-HasDistinct address core.blocked v.distinct;
}

pub set_blocked-IsConsistent :
    (address owner : ℕ) (kind : SuspendKind) (reason : Bytes) (loc : SourceLocation)
    (core : AsyncSchedulerCore)
    → core.suspend_sequence + 1 < 2 ^ 64
    → IsConsistent core
    → IsConsistent (set_blocked address owner kind reason loc core)
unfolding set_blocked assign next_suspend owner_for_locked
set_blocked-IsConsistent address owner kind reason loc core h v =
    rw (no_wrap core.suspend_sequence h) (record {
      keyed = v.keyed;
      owned = v.owned;
      numbered =
          (omega arith, All-imp _ _ (erase address core.blocked) (λ e l. omega (arith, l)) kept);
      distinct = (
        All-imp _ _ (erase address core.blocked) (λ e l q. absurd (omega (arith, l, q))) kept,
        erase-HasDistinct address core.blocked v.distinct,
      );
    })
  where
    kept : All (λ e. e.1.sequence ≤ core.suspend_sequence) (erase address core.blocked)
    kept = erase-All (λ e. e.1.sequence ≤ core.suspend_sequence) address core.blocked v.numbered

pub set_blocked-HasOwner :
    (address owner : ℕ) (kind : SuspendKind) (reason : Bytes) (loc : SourceLocation)
    (core : AsyncSchedulerCore) (f : AsyncFrame)
    → HasOwner core f
    → HasOwner (set_blocked address owner kind reason loc core) f
unfolding set_blocked owner_for_locked
set_blocked-HasOwner address owner kind reason loc core f h = h

pub enqueue-IsConsistent :
    (f : AsyncFrame) (core : AsyncSchedulerCore)
    → HasOwner core f
    → IsConsistent core
    → IsConsistent (record core { ready = core.ready ++ f ∷ [] })
unfolding owner_for_locked
enqueue-IsConsistent f core h v = record {
  keyed = v.keyed;
  owned = All-append (HasOwner core) core.ready (f ∷ []) v.owned (h, tt);
  numbered = v.numbered;
  distinct = v.distinct;
}
