-- ===== src/Async/Scheduler/Latest.antt =====
-- The state that is shown for a suspended owner.
use gentest.Base.{
  ℕ, ◌≤◌, ◌<◌, ◌≡◌, refl, ap, ◌⊎◌, inl, inr, Bool, true, false, not, ◌&&◌, List, [], ◌∷◌, ◌==◌,
  arith, All, Mem, Bool-cases, if-cases, is_empty, codes,
}
use mathlib.Core.List.{mem-cons_self, mem-cons_of_mem}
use gentest.Async.Scheduler.{
  SuspendedState, BlockedHandle, AsyncSchedulerCore, state_of, supersedes, latest_state,
  suspended_state_for,
}

-- A suspended frame of the owner that has a reason.
abbrev pub is_eligible : ℕ → ℕ × BlockedHandle → Bool
is_eligible owner e = e.1.owner == owner && not (is_empty e.1.reason)

abbrev pub NoLater : ℕ → ℕ → ℕ × BlockedHandle → Type 0
NoLater owner n e = is_eligible owner e ≡ true → e.1.sequence ≤ n

abbrev Earlier : ℕ → ℕ → ℕ × BlockedHandle → Type 0
Earlier owner n e = is_eligible owner e ≡ true → e.1.sequence < n

-- The state is the former one, or that of an entry; it is no earlier than either.
abbrev Latest : ℕ → List (ℕ × BlockedHandle) → SuspendedState → SuspendedState → Type 0
Latest owner blocked before result =
    (((result ≡ before) × All (Earlier owner before.sequence) blocked)
      ⊎ ((e : ℕ × BlockedHandle) × Mem e blocked
          × (is_eligible owner e ≡ true)
          × (result ≡ state_of e.1)))
    × All (NoLater owner result.sequence) blocked
    × (before.sequence ≤ result.sequence)

module _ (owner : ℕ) where
  supersedes-Latest :
      (e : ℕ × BlockedHandle) (es : List (ℕ × BlockedHandle)) (before result : SuspendedState)
      → supersedes owner e.1 before ≡ true
      → Latest owner es (state_of e.1) result
      → Latest owner (e ∷ es) before result
  unfolding supersedes
  supersedes-Latest e es before result s (h, l, m) = (
    inr (elim h [
      | inl (q, earlier) ↦ (e, mem-cons_self, ground arith, q)
      | inr (x, k, c, q) ↦ (x, mem-cons_of_mem e k, c, q)
    ]),
    ((λ c. m), l),
    ground arith,
  )

  passed-Latest :
      (e : ℕ × BlockedHandle) (es : List (ℕ × BlockedHandle)) (before result : SuspendedState)
      → supersedes owner e.1 before ≡ false
      → Latest owner es before result
      → Latest owner (e ∷ es) before result
  unfolding supersedes
  passed-Latest e es before result s (h, l, m) = (
    elim h [
      | inl (q, earlier) ↦ inl (q, ((λ c. ground arith), earlier))
      | inr (x, k, c, q) ↦ inr (x, mem-cons_of_mem e k, c, q)
    ],
    ((λ c. ground arith), l),
    m,
  )

  latest_state-Latest :
      (es : List (ℕ × BlockedHandle)) (before : SuspendedState)
      → Latest owner es before (latest_state owner es before)
  unfolding latest_state
  latest_state-Latest [] before = (inl (refl, tt), tt, omega arith)
  latest_state-Latest (e ∷ es) before =
      if-cases (λ (r : SuspendedState). Latest owner (e ∷ es) before (latest_state owner es r))
        (supersedes owner e.1 before) (state_of e.1) before
        (λ s. supersedes-Latest e es before _ s (latest_state-Latest es (state_of e.1)))
        (λ s. passed-Latest e es before _ s (latest_state-Latest es before))

  none-Earlier :
      (es : List (ℕ × BlockedHandle))
      → All (Earlier owner 0) es
      → All (λ e. is_eligible owner e ≡ false) es
  none-Earlier [] h = tt
  none-Earlier (e ∷ es) h = (
    elim (Bool-cases (is_eligible owner e)) [ inl c ↦ absurd (omega (arith, h.0 c)) | inr c ↦ c ],
    none-Earlier es h.1,
  )

  -- The state that is shown for an owner is that of a suspended frame of the owner with a reason,
  -- none of which was suspended later; or it says that the owner waits, if there is no such frame.
  pub suspended_state_for-NoLater :
      (core : AsyncSchedulerCore)
      → let result = suspended_state_for owner core in
        ((All (λ e. is_eligible owner e ≡ false) core.blocked
            × (result.reason ≡ codes "waiting to resume"))
          ⊎ ((e : ℕ × BlockedHandle) × Mem e core.blocked
              × (is_eligible owner e ≡ true)
              × (result ≡ state_of e.1)))
        × All (NoLater owner result.sequence) core.blocked
  unfolding suspended_state_for
  suspended_state_for-NoLater core =
      let (h, l, m) = latest_state-Latest core.blocked _ in
      (
        elim h [
          | inl (q, earlier) ↦ inl (none-Earlier core.blocked earlier, ap (λ r. r.reason) q)
          | inr x ↦ inr x
        ],
        l,
      )
