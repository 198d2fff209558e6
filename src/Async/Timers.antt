-- ===== src/Async/Timers.antt =====
-- `AsyncTimerQueue` of src/async_timer_queue.h. The priority queue is the list of its timers with the
-- top first. A time point is a number, of which the code uses the order alone; a token is a number,
-- with `none` for the null pointer, and `active` is what `WaiterToken::active` answers.
pub mod Due
use gentest.Base.{
  ℕ, ◌+◌, ◌%◌, ◌^◌, Bool, true, false, not, ◌&&◌, ◌||◌, Option, none, some, List, [], ◌∷◌, ◌==◌,
  ltb, if◌then◌else◌, is_empty,
}

pub record Timer : Type 0 where
  pub deadline : ℕ
  pub sequence : ℕ
  pub token : Option ℕ

pub record AsyncTimerQueue : Type 0 where
  pub timers : List Timer
  pub next_sequence : ℕ

-- `EarlierDeadlineFirst`, by which the top is the timer that is after no other.
unfoldable pub comes_after : Timer → Timer → Bool
comes_after lhs rhs =
    if lhs.deadline == rhs.deadline
    then ltb rhs.sequence lhs.sequence
    else ltb rhs.deadline lhs.deadline

-- `std::priority_queue::push`.
unfoldable pub insert_timer : Timer → List Timer → List Timer
unfolding comes_after
insert_timer new [] = new ∷ []
insert_timer new (timer ∷ timers) =
    if comes_after new timer then timer ∷ insert_timer new timers else new ∷ timer ∷ timers

unfoldable pub push : ℕ → Option ℕ → AsyncTimerQueue → AsyncTimerQueue
unfolding insert_timer
push deadline none queue = queue
push deadline (some token) queue = record {
  timers =
      insert_timer
        (record { deadline = deadline; sequence = queue.next_sequence; token = some token })
        queue.timers;
  next_sequence = (queue.next_sequence + 1) % 2 ^ 64;
}

unfoldable pub is_active : (ℕ → Bool) → Option ℕ → Bool
is_active active none = false
is_active active (some token) = active token

-- The tokens that are due, and the timers left.
unfoldable pub pop_due_loop : (ℕ → Bool) → ℕ → List Timer → List (Option ℕ) × List Timer
unfolding is_active
pop_due_loop active now [] = ([], [])
pop_due_loop active now (timer ∷ timers) =
    let (due, left) = pop_due_loop active now timers in
    if is_active active timer.token
    then (if ltb now timer.deadline then ([], timer ∷ timers) else (timer.token ∷ due, left))
    else (due, left)

unfoldable pub pop_due : (ℕ → Bool) → ℕ → AsyncTimerQueue → List (Option ℕ) × AsyncTimerQueue
unfolding pop_due_loop
pop_due active now queue =
    let (due, left) = pop_due_loop active now queue.timers in (due, record queue { timers = left })

unfoldable pub purge_timers : (ℕ → Bool) → List Timer → List Timer
unfolding is_active
purge_timers active [] = []
purge_timers active (timer ∷ timers) =
    let rest = purge_timers active timers in
    if is_active active timer.token then timer ∷ timers else rest

unfoldable pub purge_stale : (ℕ → Bool) → AsyncTimerQueue → AsyncTimerQueue
unfolding purge_timers
purge_stale active queue = record queue { timers = purge_timers active queue.timers }

abbrev top_deadline : List Timer → Option ℕ
top_deadline [] = none
top_deadline (timer ∷ timers) = some timer.deadline

unfoldable pub next_deadline : (ℕ → Bool) → AsyncTimerQueue → Option ℕ × AsyncTimerQueue
unfolding purge_stale
next_deadline active queue =
    let purged = purge_stale active queue in (top_deadline purged.timers, purged)

abbrev has_value : Option ℕ → Bool
has_value none = false
has_value (some deadline) = true

unfoldable pub has_pending : (ℕ → Bool) → AsyncTimerQueue → Bool × AsyncTimerQueue
unfolding next_deadline
has_pending active queue =
    let (deadline, purged) = next_deadline active queue in (has_value deadline, purged)

unfoldable pub clear : AsyncTimerQueue → AsyncTimerQueue
clear queue = record queue { timers = [] }
