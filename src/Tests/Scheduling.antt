-- ===== src/Tests/Scheduling.antt =====
-- Three timers, of which one was canceled, and a scheduler with two frames.
use gentest.Base.{
  ℕ, ◌≡◌, refl, Bool, true, false, some, [], ◌∷◌, ◌==◌, not, keep, map, arith, inl, inr, ◌⊎◌, ◌++◌,
  if◌then◌else◌, All, Mem, codes,
}
use gentest.Async.Timers.{Timer, AsyncTimerQueue, push, pop_due}
use gentest.Async.Scheduler.{
  AsyncFrame, Frames, SourceLocation, AsyncSchedulerCore, BlockedHandle, SuspendKind, state_of,
  empty_core, register_frame, post_frame, pop_ready, block, suspended_state_for,
}
use gentest.Async.Scheduler.Pop.{is_accepted, live_ready, Pops, post_frame-pop_ready}
use gentest.Async.Scheduler.Latest.{is_eligible, NoLater, suspended_state_for-NoLater}
use gentest.Async.Scheduler.Owned.{IsConsistent}
use gentest.Async.Scheduler.Steps.{Step, Reachable, Reachable-IsConsistent}
use gentest.Async.Timers.Due.{IsQueue, is_due, is_live, is_pending, pop_due-push}

abbrev timer : ℕ → ℕ → Timer
timer deadline n = record { deadline = deadline; sequence = n; token = some n }

abbrev three : AsyncTimerQueue
three = record { timers = timer 4 1 ∷ timer 4 2 ∷ timer 9 0 ∷ []; next_sequence = 3 }

abbrev uncanceled : ℕ → Bool
uncanceled token = not (token == 2)

three-IsQueue : IsQueue three
three-IsQueue = record {
  ordered =
      ((inr (refl, omega arith), (inl (omega arith), tt)), ((inl (omega arith), tt), (tt, tt)));
  numbered = (omega arith, (omega arith, (omega arith, tt)));
}

pop_due-push_example :
    let queue' = push 5 (some 3) three in
    let (due, queue'') = pop_due uncanceled 5 queue' in
    IsQueue queue'
    × (due ≡ map (λ t. t.token) (keep (is_due uncanceled 5) queue'.timers))
    × (keep (is_live uncanceled) queue''.timers ≡ keep (is_pending uncanceled 5) queue'.timers)
    × IsQueue queue''
pop_due-push_example = pop_due-push uncanceled 5 5 (some 3) three (omega arith) three-IsQueue

one_due : (pop_due uncanceled 5 three).0 ≡ some 1 ∷ []
unfolding pop_due
one_due = refl

abbrev first : AsyncFrame
first = record { object = 1; address = 100 }

abbrev second : AsyncFrame
second = record { object = 2; address = 200 }

abbrev answers : Frames
answers = record { canceled = λ object. object == 2; done = λ object. false }

abbrev registered : AsyncSchedulerCore
registered = register_frame 0 (some first) empty_core

abbrev posted : AsyncSchedulerCore
posted = (post_frame answers (some first) registered).0

Reachable-IsConsistent_example : IsConsistent posted
Reachable-IsConsistent_example = Reachable-IsConsistent posted (
    Reachable.step registered posted
      (Reachable.step empty_core registered Reachable.start
        (Step.registers 0 (some first) (λ q. absurd (omega (arith, q)))))
      (Step.posts answers (some first)))

post_frame-pop_ready_example :
    let (core', wakes) = post_frame answers (some first) registered in
    (wakes ≡ is_accepted answers first registered)
    × (live_ready answers core' ≡ (
        if is_accepted answers first registered
        then live_ready answers registered ++ first ∷ []
        else live_ready answers registered))
    × (let (popped, core'') = pop_ready answers core' in
        Pops answers (live_ready answers core') popped (live_ready answers core''))
post_frame-pop_ready_example = post_frame-pop_ready answers first registered

-- The frame is popped again.
first_popped : (pop_ready answers posted).0 ≡ some first
unfolding pop_ready post_frame register_frame empty_core
first_popped = refl

abbrev here : SourceLocation
here = record { file_name = codes "a.cpp"; line = 3 }

abbrev waiting : AsyncSchedulerCore
waiting = block (some 100) SuspendKind.suspended (codes "reads") here registered

suspended_state_for-NoLater_example :
    let result = suspended_state_for 0 waiting in
    ((All (λ e. is_eligible 0 e ≡ false) waiting.blocked
        × (result.reason ≡ codes "waiting to resume"))
      ⊎ ((e : ℕ × BlockedHandle) × Mem e waiting.blocked
          × (is_eligible 0 e ≡ true)
          × (result ≡ state_of e.1)))
    × All (NoLater 0 result.sequence) waiting.blocked
suspended_state_for-NoLater_example = suspended_state_for-NoLater 0 waiting

shown_reason : (suspended_state_for 0 waiting).reason ≡ codes "reads"
unfolding suspended_state_for block register_frame empty_core
shown_reason = refl
