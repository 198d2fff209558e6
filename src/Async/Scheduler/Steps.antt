-- ===== src/Async/Scheduler/Steps.antt =====
-- The operations of the scheduler as steps.
use gentest.Base.{
  ℕ, ◌+◌, ◌^◌, ◌<◌, ◌≡◌, refl, ◌≢◌, inl, inr, Bool, ◌||◌, Option, none, some, List, [], ◌∷◌, Bytes,
  codes, ◌==◌, arith, All, Bool-cases, if-cases,
}
use gentest.Async.Scheduler.{
  SuspendKind, yielded, AsyncFrame, Frames, SourceLocation, AsyncSchedulerCore, find, erase, assign,
  invalid_owner, owner_for_locked, frame_for_locked, register_frame, post_frame, post, block,
  yield_frame, yield, schedule_timer, pop_loop, pop_ready, clear_suspend_state, empty_core,
}
use gentest.Async.Scheduler.Owned.{
  HasOwner, IsConsistent, find-erase, erase-All, All-imp, erase-IsConsistent,
  set_blocked-IsConsistent, set_blocked-HasOwner, enqueue-IsConsistent,
}

register_frame-HasOwner :
    (owner : ℕ) (f : AsyncFrame) (core : AsyncSchedulerCore)
    → owner ≢ invalid_owner
    → (x : AsyncFrame) → HasOwner core x
    → HasOwner (register_frame owner (some f) core) x
unfolding register_frame owner_for_locked assign find
register_frame-HasOwner owner f core h x o = elim (Bool-cases (f.address == x.address)) [
  | inl q ↦ rw q (ground (arith, h))
  | inr q ↦ rw (q, find-erase x.address f.address core.owners q) o
]

register_frame-IsConsistent :
    (owner : ℕ) (f : Option AsyncFrame) (core : AsyncSchedulerCore)
    → owner ≢ invalid_owner
    → IsConsistent core
    → IsConsistent (register_frame owner f core)
unfolding register_frame assign
register_frame-IsConsistent owner none core h v = v
register_frame-IsConsistent owner (some f) core h v = record {
  keyed = (refl, erase-All (λ e. e.1.address ≡ e.0) f.address core.frames v.keyed);
  owned = All-imp (HasOwner core) _ core.ready (register_frame-HasOwner owner f core h) v.owned;
  numbered = v.numbered;
  distinct = v.distinct;
}

post_frame-IsConsistent :
    (fs : Frames) (f : Option AsyncFrame) (core : AsyncSchedulerCore)
    → IsConsistent core
    → IsConsistent (post_frame fs f core).0
unfolding post_frame owner_for_locked
post_frame-IsConsistent fs none core v = v
post_frame-IsConsistent fs (some f) core v =
    let unblocked = erase-IsConsistent f.address core v in
    if-cases P (owner_for_locked f.address core == invalid_owner) _ _ (λ o. unblocked)
      λ o.
        if-cases P (fs.canceled f.object || fs.done f.object) _ _ (λ c. unblocked)
          (λ c.
            enqueue-IsConsistent f (record core { blocked = erase f.address core.blocked }) o
              unblocked)
  where
    P : AsyncSchedulerCore × Bool → Type 0
    P r = IsConsistent r.0

block-IsConsistent :
    (handle : Option ℕ) (kind : SuspendKind) (reason : Bytes) (loc : SourceLocation)
    (core : AsyncSchedulerCore)
    → core.suspend_sequence + 1 < 2 ^ 64
    → IsConsistent core
    → IsConsistent (block handle kind reason loc core)
unfolding block
block-IsConsistent none kind reason loc core h v = v
block-IsConsistent (some address) kind reason loc core h v =
    if-cases IsConsistent (owner_for_locked address core == invalid_owner) _ _ (λ o. v)
      (λ o. set_blocked-IsConsistent address _ kind _ loc core h v)

find-keyed :
    (address : ℕ) (f : AsyncFrame) (frames : List (ℕ × AsyncFrame))
    → All (λ e. e.1.address ≡ e.0) frames
    → find address frames ≡ some f
    → f.address ≡ address
unfolding find
find-keyed address f [] k q = absurd (ground arith)
find-keyed address f ((a, x) ∷ frames) k q = ground (arith, find-keyed address f frames k.1, k.0)

yield_frame-IsConsistent :
    (fs : Frames) (address : ℕ) (loc : SourceLocation) (f : Option AsyncFrame)
    (core : AsyncSchedulerCore)
    → find address core.frames ≡ f
    → core.suspend_sequence + 1 < 2 ^ 64
    → IsConsistent core
    → IsConsistent (yield_frame fs address loc f core).0
unfolding yield_frame
yield_frame-IsConsistent fs address loc none core q h v = v
yield_frame-IsConsistent fs address loc (some f) core q h v =
    let same = find-keyed address f core.frames v.keyed q in
    if-cases (λ (r : AsyncSchedulerCore × Bool). IsConsistent r.0)
      (owner_for_locked address core == invalid_owner || fs.canceled f.object || fs.done f.object) _
      _ (λ o. v)
      λ o.
        enqueue-IsConsistent f _
          (set_blocked-HasOwner address (owner_for_locked address core) yielded
            (codes "yielded cooperatively") loc core f (rw same (ground arith)))
          (set_blocked-IsConsistent address _ _ _ loc core h v)

yield-IsConsistent :
    (fs : Frames) (handle : Option ℕ) (loc : SourceLocation) (core : AsyncSchedulerCore)
    → core.suspend_sequence + 1 < 2 ^ 64
    → IsConsistent core
    → IsConsistent (yield fs handle loc core).0
unfolding yield frame_for_locked
yield-IsConsistent fs none loc core h v = v
yield-IsConsistent fs (some address) loc core h v =
    yield_frame-IsConsistent fs address loc (find address core.frames) core refl h v

pop_loop-All :
    (P : AsyncFrame → Type 0) (fs : Frames) (ready : List AsyncFrame)
    → All P ready
    → All P (pop_loop fs ready).1
unfolding pop_loop
pop_loop-All P fs [] h = tt
pop_loop-All P fs (f ∷ ready) h =
    if-cases (λ (r : Option AsyncFrame × List AsyncFrame). All P r.1) (fs.canceled f.object) _ _
      (λ c. pop_loop-All P fs ready h.1) (λ c. h.1)

pop_ready-IsConsistent :
    (fs : Frames) (core : AsyncSchedulerCore)
    → IsConsistent core
    → IsConsistent (pop_ready fs core).1
unfolding pop_ready owner_for_locked
pop_ready-IsConsistent fs core v = record {
  keyed = v.keyed;
  owned = pop_loop-All (HasOwner core) fs core.ready v.owned;
  numbered = v.numbered;
  distinct = v.distinct;
}

clear_suspend_state-IsConsistent :
    (f : Option AsyncFrame) (core : AsyncSchedulerCore)
    → IsConsistent core
    → IsConsistent (clear_suspend_state f core)
unfolding clear_suspend_state
clear_suspend_state-IsConsistent none core v = v
clear_suspend_state-IsConsistent (some f) core v = erase-IsConsistent f.address core v

schedule_timer-IsConsistent :
    (deadline : ℕ) (token : Option ℕ) (core : AsyncSchedulerCore)
    → IsConsistent core
    → IsConsistent (schedule_timer deadline token core).0
unfolding schedule_timer owner_for_locked
schedule_timer-IsConsistent deadline none core v = v
schedule_timer-IsConsistent deadline (some token) core v = record {
  keyed = v.keyed;
  owned = v.owned;
  numbered = v.numbered;
  distinct = v.distinct;
}

-- The operations, with any frames and answers of frames. A suspension has a number of 64 bits.
pub data Step (core : AsyncSchedulerCore) : AsyncSchedulerCore → Type 0 where
  registers :
      (owner : ℕ) (f : Option AsyncFrame)
      → owner ≢ invalid_owner
      → Step core (register_frame owner f core)
  posts : (fs : Frames) (f : Option AsyncFrame) → Step core (post_frame fs f core).0
  posts_handle : (fs : Frames) (address : ℕ) → Step core (post fs address core).0
  blocks :
      (handle : Option ℕ) (kind : SuspendKind) (reason : Bytes) (loc : SourceLocation)
      → core.suspend_sequence + 1 < 2 ^ 64
      → Step core (block handle kind reason loc core)
  yields :
      (fs : Frames) (handle : Option ℕ) (loc : SourceLocation)
      → core.suspend_sequence + 1 < 2 ^ 64
      → Step core (yield fs handle loc core).0
  schedules : (deadline : ℕ) (token : Option ℕ) → Step core (schedule_timer deadline token core).0
  pops : (fs : Frames) → Step core (pop_ready fs core).1
  clears : (f : Option AsyncFrame) → Step core (clear_suspend_state f core)

pub data Reachable : AsyncSchedulerCore → Type 0 where
  start : Reachable empty_core
  step : (core core' : AsyncSchedulerCore) → Reachable core → Step core core' → Reachable core'

Step-IsConsistent :
    (core core' : AsyncSchedulerCore) → Step core core' → IsConsistent core → IsConsistent core'
unfolding post
Step-IsConsistent core core' (Step.registers owner f h) v =
    register_frame-IsConsistent owner f core h v
Step-IsConsistent core core' (Step.posts fs f) v = post_frame-IsConsistent fs f core v
Step-IsConsistent core core' (Step.posts_handle fs address) v = post_frame-IsConsistent fs _ core v
Step-IsConsistent core core' (Step.blocks handle kind reason loc h) v =
    block-IsConsistent handle kind reason loc core h v
Step-IsConsistent core core' (Step.yields fs handle loc h) v =
    yield-IsConsistent fs handle loc core h v
Step-IsConsistent core core' (Step.schedules deadline token) v =
    schedule_timer-IsConsistent deadline token core v
Step-IsConsistent core core' (Step.pops fs) v = pop_ready-IsConsistent fs core v
Step-IsConsistent core core' (Step.clears f) v = clear_suspend_state-IsConsistent f core v

-- Whatever frames are registered under valid owners, posted, suspended, yielded and popped, and
-- whatever timers are scheduled, with fewer than 2^64 suspensions: a frame is found under its own
-- address, every frame in the ready queue has an owner, and no two suspended frames have one number.
pub Reachable-IsConsistent : (core : AsyncSchedulerCore) → Reachable core → IsConsistent core
unfolding empty_core
Reachable-IsConsistent core Reachable.start = record {
  keyed = tt;
  owned = tt;
  numbered = tt;
  distinct = tt;
}
Reachable-IsConsistent core (Reachable.step before _ r s) =
    Step-IsConsistent before core s (Reachable-IsConsistent before r)
