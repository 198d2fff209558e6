-- ===== src/Async/Scheduler.antt =====
-- The frames, the ready queue and the suspended frames of `AsyncSchedulerCore` in
-- src/async_scheduler_core.h. Each operation holds the mutex while it changes the state, so that it is
-- one step. A frame is an object with the address of its coroutine; `canceled` and `done` tell of each
-- object what `is_canceled` and `done` answer. An operation that may call the wake callback says
-- whether it does. A handle is an address, with `none` for the empty one.
pub mod Pop
pub mod Owned
pub mod Steps
pub mod Latest
use gentest.Base.{
  ℕ, ◌+◌, ◌%◌, ◌^◌, Bool, true, false, not, ◌&&◌, ◌||◌, Option, none, some, List, [], ◌∷◌, ◌++◌,
  Bytes, codes, ◌==◌, leb, if◌then◌else◌, is_empty, length,
}
use gentest.Async.Timers.{AsyncTimerQueue, push}

pub data SuspendKind : Type 0 where
  suspended yielded : SuspendKind

pub record SuspendedState : Type 0 where
  pub kind : SuspendKind
  pub reason : Bytes
  pub file : Bytes
  pub line : ℕ
  pub sequence : ℕ

pub record BlockedHandle : Type 0 where
  pub owner : ℕ
  pub kind : SuspendKind
  pub sequence : ℕ
  pub reason : Bytes
  pub file : Bytes
  pub line : ℕ

pub record AsyncFrame : Type 0 where
  pub object : ℕ
  pub address : ℕ

-- What the frames answer, by object.
pub record Frames : Type 0 where
  pub canceled : ℕ → Bool
  pub done : ℕ → Bool

pub record SourceLocation : Type 0 where
  pub file_name : Bytes
  pub line : ℕ

-- The maps are lists of keys and values, in the order of their iteration.
pub record AsyncSchedulerCore : Type 0 where
  pub ready : List AsyncFrame
  pub frames : List (ℕ × AsyncFrame)
  pub owners : List (ℕ × ℕ)
  pub blocked : List (ℕ × BlockedHandle)
  pub timers : AsyncTimerQueue
  pub suspend_sequence : ℕ

-- What the members are initialized to.
unfoldable pub empty_core : AsyncSchedulerCore
empty_core = record {
  ready = [];
  frames = [];
  owners = [];
  blocked = [];
  timers = record { timers = []; next_sequence = 0 };
  suspend_sequence = 0;
}

unfoldable pub find : {V : Type 0} → ℕ → List (ℕ × V) → Option V
find key [] = none
find key ((k, v) ∷ entries) = let rest = find key entries in if k == key then some v else rest

unfoldable pub erase : {V : Type 0} → ℕ → List (ℕ × V) → List (ℕ × V)
erase key [] = []
erase key ((k, v) ∷ entries) =
    let rest = erase key entries in if k == key then rest else (k, v) ∷ rest

unfoldable pub assign : {V : Type 0} → ℕ → V → List (ℕ × V) → List (ℕ × V)
unfolding erase
assign key v entries = (key, v) ∷ erase key entries

-- `kInvalidOwner`.
abbrev pub invalid_owner : ℕ
invalid_owner = 18446744073709551615

abbrev owner_or_invalid : Option ℕ → ℕ
owner_or_invalid none = invalid_owner
owner_or_invalid (some owner) = owner

unfoldable pub owner_for_locked : ℕ → AsyncSchedulerCore → ℕ
unfolding find
owner_for_locked address core = owner_or_invalid (find address core.owners)

unfoldable pub frame_for_locked : ℕ → AsyncSchedulerCore → Option AsyncFrame
unfolding find
frame_for_locked address core = find address core.frames

-- The frame is `none` where the pointer is null or the frame has no coroutine.
unfoldable pub register_frame : ℕ → Option AsyncFrame → AsyncSchedulerCore → AsyncSchedulerCore
unfolding assign
register_frame owner none core = core
register_frame owner (some frame) core = record core {
  frames = assign frame.address frame core.frames;
  owners = assign frame.address owner core.owners;
}

-- The core after the operation, and whether the wake callback is called.
unfoldable pub post_frame :
    Frames → Option AsyncFrame → AsyncSchedulerCore → AsyncSchedulerCore × Bool
unfolding owner_for_locked erase
post_frame fs none core = (core, false)
post_frame fs (some frame) core =
    let unblocked = record core { blocked = erase frame.address core.blocked } in
    if owner_for_locked frame.address core == invalid_owner
    then (unblocked, false)
    else (if fs.canceled frame.object || fs.done frame.object
        then (unblocked, false)
        else (record unblocked { ready = core.ready ++ frame ∷ [] }, true))

unfoldable pub post : Frames → ℕ → AsyncSchedulerCore → AsyncSchedulerCore × Bool
unfolding frame_for_locked post_frame
post fs address core = post_frame fs (frame_for_locked address core) core

-- `++suspend_sequence_`.
unfoldable pub next_suspend : AsyncSchedulerCore → ℕ
next_suspend core = (core.suspend_sequence + 1) % 2 ^ 64

unfoldable pub set_blocked :
    ℕ → ℕ → SuspendKind → Bytes → SourceLocation → AsyncSchedulerCore → AsyncSchedulerCore
unfolding next_suspend assign
set_blocked address owner kind reason loc core = record core {
  blocked =
      assign address
        (record {
          owner = owner;
          kind = kind;
          sequence = next_suspend core;
          reason = reason;
          file = loc.file_name;
          line = loc.line;
        })
        core.blocked;
  suspend_sequence = next_suspend core;
}

unfoldable pub block :
    Option ℕ → SuspendKind → Bytes → SourceLocation → AsyncSchedulerCore → AsyncSchedulerCore
unfolding owner_for_locked set_blocked
block none kind reason loc core = core
block (some address) kind reason loc core =
    let owner = owner_for_locked address core in
    if owner == invalid_owner
    then core
    else set_blocked address owner kind
        (if is_empty reason then codes "async test cannot resume" else reason) loc core

unfoldable pub yield_frame :
    Frames → ℕ → SourceLocation → Option AsyncFrame → AsyncSchedulerCore → AsyncSchedulerCore × Bool
unfolding owner_for_locked set_blocked
yield_frame fs address loc none core = (core, false)
yield_frame fs address loc (some frame) core =
    let owner = owner_for_locked address core in
    let blocked =
      set_blocked address owner SuspendKind.yielded (codes "yielded cooperatively") loc core in
    if owner == invalid_owner || fs.canceled frame.object || fs.done frame.object
    then (core, false)
    else (record blocked { ready = core.ready ++ frame ∷ [] }, true)

unfoldable pub yield :
    Frames → Option ℕ → SourceLocation → AsyncSchedulerCore → AsyncSchedulerCore × Bool
unfolding frame_for_locked yield_frame
yield fs none loc core = (core, false)
yield fs (some address) loc core = yield_frame fs address loc (frame_for_locked address core) core

unfoldable pub schedule_timer : ℕ → Option ℕ → AsyncSchedulerCore → AsyncSchedulerCore × Bool
unfolding push
schedule_timer deadline none core = (core, false)
schedule_timer deadline (some token) core =
    (record core { timers = push deadline (some token) core.timers }, true)

-- The loop of `pop_ready`.
unfoldable pub pop_loop : Frames → List AsyncFrame → Option AsyncFrame × List AsyncFrame
pop_loop fs [] = (none, [])
pop_loop fs (frame ∷ ready) =
    let rest = pop_loop fs ready in if fs.canceled frame.object then rest else (some frame, ready)

unfoldable pub pop_ready : Frames → AsyncSchedulerCore → Option AsyncFrame × AsyncSchedulerCore
unfolding pop_loop
pop_ready fs core =
    let (frame, ready) = pop_loop fs core.ready in (frame, record core { ready = ready })

unfoldable pub ready_size : AsyncSchedulerCore → ℕ
ready_size core = length core.ready

unfoldable pub has_ready : AsyncSchedulerCore → Bool
has_ready core = not (is_empty core.ready)

unfoldable pub clear_suspend_state : Option AsyncFrame → AsyncSchedulerCore → AsyncSchedulerCore
unfolding erase
clear_suspend_state none core = core
clear_suspend_state (some frame) core = record core { blocked = erase frame.address core.blocked }

abbrev pub state_of : BlockedHandle → SuspendedState
state_of b = record {
  kind = b.kind;
  reason = b.reason;
  file = b.file;
  line = b.line;
  sequence = b.sequence;
}

-- The test of the loop of `suspended_state_for`.
unfoldable pub supersedes : ℕ → BlockedHandle → SuspendedState → Bool
supersedes owner b result =
    b.owner == owner && not (is_empty b.reason) && leb result.sequence b.sequence

unfoldable pub latest_state : ℕ → List (ℕ × BlockedHandle) → SuspendedState → SuspendedState
unfolding supersedes
latest_state owner [] result = result
latest_state owner ((k, b) ∷ blocked) result =
    latest_state owner blocked (if supersedes owner b result then state_of b else result)

unfoldable pub suspended_state_for : ℕ → AsyncSchedulerCore → SuspendedState
unfolding latest_state
suspended_state_for owner core = latest_state owner core.blocked (record {
  kind = SuspendKind.suspended;
  reason = codes "waiting to resume";
  file = [];
  line = 0;
  sequence = 0;
})
