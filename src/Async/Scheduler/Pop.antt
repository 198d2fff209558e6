-- ===== src/Async/Scheduler/Pop.antt =====
-- The ready queue is first in, first out among the frames that are not canceled.
use gentest.Base.{
  ◌≡◌, refl, Bool, true, false, not, ◌||◌, Option, none, some, List, [], ◌∷◌, ◌++◌, inl, inr, ◌==◌,
  arith, keep, Bool-cases, if◌then◌else◌,
}
use gentest.Async.Scheduler.{
  AsyncFrame, Frames, AsyncSchedulerCore, invalid_owner, owner_for_locked, post_frame, pop_loop,
  pop_ready,
}

module _ (fs : Frames) where
  abbrev pub is_live : AsyncFrame → Bool
  is_live f = not (fs.canceled f.object)

  -- The ready frames that are not canceled.
  abbrev pub live_ready : AsyncSchedulerCore → List AsyncFrame
  live_ready core = keep is_live core.ready

  -- The first one is taken, if there is one.
  abbrev pub Pops : List AsyncFrame → Option AsyncFrame → List AsyncFrame → Type 0
  Pops before none after = (before ≡ []) × (after ≡ [])
  Pops before (some f) after = before ≡ f ∷ after

  pop_loop-Pops :
      (ready : List AsyncFrame)
      → Pops (keep is_live ready) (pop_loop fs ready).0 (keep is_live (pop_loop fs ready).1)
  unfolding pop_loop
  pop_loop-Pops [] = (refl, refl)
  pop_loop-Pops (f ∷ ready) = elim (Bool-cases (fs.canceled f.object)) [
    | inl c ↦ rw c (pop_loop-Pops ready)
    | inr c ↦ rw c refl
  ]

  keep-append :
      (ready : List AsyncFrame) (f : AsyncFrame)
      → is_live f ≡ true
      → keep is_live (ready ++ f ∷ []) ≡ keep is_live ready ++ f ∷ []
  keep-append [] f h = rw h refl
  keep-append (x ∷ ready) f h = ground (arith, keep-append ready f h)

  -- Whether a frame is put into the ready queue: it has an owner, and is neither canceled nor done.
  abbrev pub is_accepted : AsyncFrame → AsyncSchedulerCore → Bool
  is_accepted f core =
      if owner_for_locked f.address core == invalid_owner
      then false
      else not (fs.canceled f.object || fs.done f.object)

  post_frame-accepted :
      (f : AsyncFrame) (core : AsyncSchedulerCore)
      → ((post_frame fs (some f) core).1 ≡ is_accepted f core)
        × (live_ready (post_frame fs (some f) core).0
            ≡ (if is_accepted f core then live_ready core ++ f ∷ [] else live_ready core))
  unfolding post_frame
  post_frame-accepted f core =
      elim (Bool-cases (owner_for_locked f.address core == invalid_owner)) [
        | inl o ↦ rw o (refl, refl)
        | inr o ↦ elim (Bool-cases (fs.canceled f.object || fs.done f.object)) [
          | inl c ↦ rw (o, c) (refl, refl)
          | inr c ↦ rw (o, c) (refl, keep-append core.ready f (ground arith))
        ]
      ]

  -- Among the frames that are not canceled, a post puts its frame last, and wakes, exactly if the
  -- frame has an owner and is neither canceled nor done, and else leaves the queue as it is; and
  -- pop_ready takes the first one, if there is one.
  pub post_frame-pop_ready :
      (f : AsyncFrame) (core : AsyncSchedulerCore)
      → let (core', wakes) = post_frame fs (some f) core in
        (wakes ≡ is_accepted f core)
        × (live_ready core'
            ≡ (if is_accepted f core then live_ready core ++ f ∷ [] else live_ready core))
        × (let (popped, core'') = pop_ready fs core' in
            Pops (live_ready core') popped (live_ready core''))
  unfolding pop_ready
  post_frame-pop_ready f core =
      let h = post_frame-accepted f core in
      (h.0, h.1, pop_loop-Pops (post_frame fs (some f) core).0.ready)
