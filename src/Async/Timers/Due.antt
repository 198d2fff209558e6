-- ===== src/Async/Timers/Due.antt =====
-- The order of the timers, and the timers that are due.
use gentest.Base.{
  ℕ, ◌+◌, ◌%◌, ◌^◌, ◌<◌, ◌≡◌, refl, sym, ap, ◌⊎◌, inl, inr, Bool, true, false, not, ◌&&◌, Option,
  none, some, List, [], ◌∷◌, ltb, arith, All, keep, map, if-cases, Bool-cases,
}
use gentest.Async.Timers.{
  Timer, AsyncTimerQueue, comes_after, insert_timer, push, is_active, pop_due_loop, pop_due,
}

-- The first timer fires before the second: earlier, or as early and pushed before.
abbrev pub Before : Timer → Timer → Type 0
Before a b = (a.deadline < b.deadline) ⊎ ((a.deadline ≡ b.deadline) × (a.sequence < b.sequence))

abbrev pub IsOrdered : List Timer → Type 0
IsOrdered [] = Unit {0}
IsOrdered (t ∷ ts) = All (Before t) ts × IsOrdered ts

-- The timers are in order, and were pushed before the next one.
pub record IsQueue (queue : AsyncTimerQueue) : Type 0 where
  pub ordered : IsOrdered queue.timers
  pub numbered : All (λ t. t.sequence < queue.next_sequence) queue.timers

Before-trans : (a b c : Timer) → Before a b → Before b c → Before a c
Before-trans a b c h k = ground arith

All-Before : (a b : Timer) (ts : List Timer) → Before a b → All (Before b) ts → All (Before a) ts
All-Before a b [] h k = tt
All-Before a b (t ∷ ts) h k = (Before-trans a b t h k.0, All-Before a b ts h k.1)

insert_timer-All :
    (P : Timer → Type 0) (new : Timer) (ts : List Timer)
    → P new
    → All P ts
    → All P (insert_timer new ts)
unfolding insert_timer
insert_timer-All P new [] p h = (p, tt)
insert_timer-All P new (t ∷ ts) p h =
    if-cases (All P) (comes_after new t) _ _ (λ b. (h.0, insert_timer-All P new ts p h.1))
      (λ b. (p, h))

comes_after-Before : (new t : Timer) → comes_after new t ≡ true → Before t new
unfolding comes_after
comes_after-Before new t h = ground arith

-- A timer that does not come after one pushed before it fires before it.
not-comes_after :
    (new t : Timer) → t.sequence < new.sequence → comes_after new t ≡ false → Before new t
unfolding comes_after
not-comes_after new t s h = ground arith

insert_timer-IsOrdered :
    (new : Timer) (ts : List Timer)
    → All (λ t. t.sequence < new.sequence) ts
    → IsOrdered ts
    → IsOrdered (insert_timer new ts)
unfolding insert_timer
insert_timer-IsOrdered new [] n h = (tt, tt)
insert_timer-IsOrdered new (t ∷ ts) n h =
    if-cases IsOrdered (comes_after new t) _ _
      (λ b. (
        insert_timer-All (Before t) new ts (comes_after-Before new t b) h.0,
        insert_timer-IsOrdered new ts n.1 h.1,
      ))
      (λ b.
        ((not-comes_after new t n.0 b, All-Before new t ts (not-comes_after new t n.0 b) h.0), h))

weaken : (n : ℕ) (ts : List Timer) → All (λ t. t.sequence < n) ts → All (λ t. t.sequence < n + 1) ts
weaken n [] h = tt
weaken n (t ∷ ts) h = (omega (arith, h.0), weaken n ts h.1)

pub no_wrap : (n : ℕ) → n + 1 < 2 ^ 64 → (n + 1) % 2 ^ 64 ≡ n + 1
no_wrap n h = omega (arith, h)

push-IsQueue :
    (deadline : ℕ) (token : Option ℕ) (queue : AsyncTimerQueue)
    → queue.next_sequence + 1 < 2 ^ 64
    → IsQueue queue
    → IsQueue (push deadline token queue)
unfolding push
push-IsQueue deadline none queue h v = v
push-IsQueue deadline (some token) queue h v = record {
  ordered = insert_timer-IsOrdered _ queue.timers v.numbered v.ordered;
  numbered = rw (no_wrap queue.next_sequence h) (
      insert_timer-All (λ t. t.sequence < queue.next_sequence + 1) _ queue.timers (omega arith)
        (weaken queue.next_sequence queue.timers v.numbered));
}

-- Active, and not later than now; active, and later.
abbrev pub is_due : (ℕ → Bool) → ℕ → Timer → Bool
is_due active now t = is_active active t.token && not (ltb now t.deadline)

abbrev pub is_pending : (ℕ → Bool) → ℕ → Timer → Bool
is_pending active now t = is_active active t.token && ltb now t.deadline

abbrev pub is_live : (ℕ → Bool) → Timer → Bool
is_live active t = is_active active t.token

module _ (active : ℕ → Bool) (now : ℕ) where
  -- Behind a timer that is later than now, all are.
  none_due :
      (a : Timer) (ts : List Timer)
      → All (Before a) ts
      → now < a.deadline
      → (map (λ t. t.token) (keep (is_due active now) ts) ≡ [])
        × (keep (is_live active) ts ≡ keep (is_pending active now) ts)
  none_due a [] h l = (refl, refl)
  none_due a (t ∷ ts) h l =
      let ih = none_due a ts h.1 l in
      let late : ltb now t.deadline ≡ true = ground (arith, h.0) in
      elim (Bool-cases (is_active active t.token)) [
        | inl b ↦ rw (late, b) (ih.0, ap (λ r. t ∷ r) ih.1)
        | inr b ↦ rw (late, b) ih
      ]

  pop_due_loop_lem :
      (ts : List Timer)
      → IsOrdered ts
      → let (due, left) = pop_due_loop active now ts in
        (due ≡ map (λ t. t.token) (keep (is_due active now) ts))
        × (keep (is_live active) left ≡ keep (is_pending active now) ts)
  unfolding pop_due_loop
  pop_due_loop_lem [] h = (refl, refl)
  pop_due_loop_lem (t ∷ ts) h =
      let ih = pop_due_loop_lem ts h.1 in
      elim (Bool-cases (is_active active t.token)) [
        | inl b ↦ elim (Bool-cases (ltb now t.deadline)) [
          | inl l ↦
              (let rest = none_due t ts h.0 (ground arith) in
                rw (b, l) (sym rest.0, rw b (ap (λ r. t ∷ r) rest.1)))
          | inr l ↦ rw (b, l) (ap (λ r. t.token ∷ r) ih.0, ih.1)
        ]
        | inr b ↦ rw b ih
      ]

  left-All :
      (P : Timer → Type 0) (ts : List Timer) → All P ts → All P (pop_due_loop active now ts).1
  unfolding pop_due_loop
  left-All P [] h = tt
  left-All P (t ∷ ts) h = elim (Bool-cases (is_active active t.token)) [
    | inl b ↦ elim (Bool-cases (ltb now t.deadline)) [
      | inl l ↦ rw (b, l) h
      | inr l ↦ rw (b, l) (left-All P ts h.1)
    ]
    | inr b ↦ rw b (left-All P ts h.1)
  ]

  left-IsOrdered : (ts : List Timer) → IsOrdered ts → IsOrdered (pop_due_loop active now ts).1
  unfolding pop_due_loop
  left-IsOrdered [] h = tt
  left-IsOrdered (t ∷ ts) h = elim (Bool-cases (is_active active t.token)) [
    | inl b ↦ elim (Bool-cases (ltb now t.deadline)) [
      | inl l ↦ rw (b, l) h
      | inr l ↦ rw (b, l) (left-IsOrdered ts h.1)
    ]
    | inr b ↦ rw b (left-IsOrdered ts h.1)
  ]

  pop_due_lem :
      (queue : AsyncTimerQueue)
      → IsQueue queue
      → let (due, queue') = pop_due active now queue in
        (due ≡ map (λ t. t.token) (keep (is_due active now) queue.timers))
        × (keep (is_live active) queue'.timers ≡ keep (is_pending active now) queue.timers)
        × IsQueue queue'
  unfolding pop_due
  pop_due_lem queue v =
      let h = pop_due_loop_lem queue.timers v.ordered in
      (
        h.0,
        h.1,
        record {
          ordered = left-IsOrdered queue.timers v.ordered;
          numbered = left-All (λ t. t.sequence < queue.next_sequence) queue.timers v.numbered;
        },
      )

  -- A push keeps a queue in order of deadlines and, for one deadline, in the order of the pushes, below
  -- the limit of the sequence numbers; pop_due then returns the tokens of exactly the active timers
  -- whose deadline is not later than now, in that order, keeps of the active timers exactly the
  -- others, and keeps the order.
  pub pop_due-push :
      (deadline : ℕ) (token : Option ℕ) (queue : AsyncTimerQueue)
      → queue.next_sequence + 1 < 2 ^ 64
      → IsQueue queue
      → let queue' = push deadline token queue in
        let (due, queue'') = pop_due active now queue' in
        IsQueue queue'
        × (due ≡ map (λ t. t.token) (keep (is_due active now) queue'.timers))
        × (keep (is_live active) queue''.timers ≡ keep (is_pending active now) queue'.timers)
        × IsQueue queue''
  pop_due-push deadline token queue h v =
      let v' = push-IsQueue deadline token queue h v in
      let p = pop_due_lem (push deadline token queue) v' in (v', p.0, p.1, p.2)
