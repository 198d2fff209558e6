-- ===== src/Logs/Removed.antt =====
-- A sink that was removed does not come back.
use gentest.Base.{
  ℕ, ◌+◌, ◌^◌, ◌<◌, ◌≡◌, refl, inl, inr, false, Option, none, some, List, [], ◌∷◌, ◌++◌, ◌==◌,
  Bool-cases, arith, keep,
}
use gentest.Logs.{
  LogSink, stdout_sink, sink, SinkEntry, SinkRegistry, any_sink, sink_active, is_other, remove_sink,
  append_sink, add_log_sink, remove_log_sink, remove_all_log_sinks, restore_default_log_sink,
}

-- A call of one of the operations, while numbers are left.
pub data Step {S : Type 0} (r : SinkRegistry S) : SinkRegistry S → Type 0 where
  adds : (target : Option S) → r.next_id + 1 < 2 ^ 64 → Step r (add_log_sink target r).1
  removes : (handle : ℕ) → Step r (remove_log_sink handle r).1
  removes_all : Step r (remove_all_log_sinks r)
  restores : r.next_id + 1 < 2 ^ 64 → Step r (restore_default_log_sink r)

pub data Later {S : Type 0} (r : SinkRegistry S) : SinkRegistry S → Type 0 where
  now : Later r r
  then_step : (s t : SinkRegistry S) → Later r s → Step s t → Later r t

module _ {S : Type 0} where
  -- No sink has the number, and none will be given it.
  abbrev IsGone : ℕ → SinkRegistry S → Type 0
  IsGone id r = (any_sink id r.sinks ≡ false) × (id < r.next_id)

  any_sink-append :
      (id : ℕ) (sinks : List (SinkEntry S)) (entry : SinkEntry S)
      → any_sink id sinks ≡ false
      → (entry.id == id) ≡ false
      → any_sink id (sinks ++ entry ∷ []) ≡ false
  unfolding any_sink
  any_sink-append id [] entry h e = ground arith
  any_sink-append id (x ∷ sinks) entry h e = ground (arith, any_sink-append id sinks entry)

  any_sink-keep :
      (id handle : ℕ) (sinks : List (SinkEntry S))
      → any_sink id sinks ≡ false
      → any_sink id (keep (is_other handle) sinks) ≡ false
  unfolding any_sink
  any_sink-keep id handle [] h = refl
  any_sink-keep id handle (x ∷ sinks) h = ground (arith, any_sink-keep id handle sinks)

  any_sink-is_other :
      (id : ℕ) (sinks : List (SinkEntry S)) → any_sink id (keep (is_other id) sinks) ≡ false
  unfolding any_sink
  any_sink-is_other id [] = refl
  any_sink-is_other id (x ∷ sinks) = ground (arith, any_sink-is_other id sinks)

  append_sink-IsGone :
      (id : ℕ) (target : LogSink S) (r : SinkRegistry S)
      → r.next_id + 1 < 2 ^ 64
      → IsGone id r
      → IsGone id (append_sink target r)
  unfolding append_sink
  append_sink-IsGone id target r l h = (
    any_sink-append id r.sinks (record { id = r.next_id; target = target }) h.0
        (ground (arith, h.1)),
    omega (arith, h.1),
  )

  Step-IsGone : (id : ℕ) (r s : SinkRegistry S) → Step r s → IsGone id r → IsGone id s
  unfolding add_log_sink remove_log_sink remove_sink remove_all_log_sinks restore_default_log_sink
      any_sink
  Step-IsGone id r _ (adds none l) h = h
  Step-IsGone id r _ (adds (some target) l) h = append_sink-IsGone id (sink target) r l h
  Step-IsGone id r _ (removes handle) h = elim (Bool-cases (handle == 0)) [
    | inl e ↦ rw e h
    | inr e ↦ rw e (any_sink-keep id handle r.sinks h.0, h.1)
  ]
  Step-IsGone id r _ removes_all h = (refl, h.1)
  Step-IsGone id r _ (restores l) h =
      append_sink-IsGone id stdout_sink (record r { sinks = [] }) l (refl, h.1)

  Later-IsGone : (id : ℕ) (r s : SinkRegistry S) → Later r s → IsGone id r → IsGone id s
  Later-IsGone id r _ now h = h
  Later-IsGone id r _ (then_step s t later step) h =
      Step-IsGone id s t step (Later-IsGone id r s later h)

  remove_log_sink-IsGone :
      (id : ℕ) (r : SinkRegistry S)
      → (id == 0) ≡ false
      → id < r.next_id
      → IsGone id (remove_log_sink id r).1
  unfolding remove_log_sink remove_sink
  remove_log_sink-IsGone id r e h = rw e (any_sink-is_other id r.sinks, h)

  sink_active_gone : (id : ℕ) (r : SinkRegistry S) → IsGone id r → sink_active id r ≡ false
  unfolding sink_active
  sink_active_gone id r h = ground (arith, h.0)

  -- Once a handle that was given out is removed, it is inactive after any further calls that add,
  -- remove and restore sinks, as long as numbers are left: no later sink gets its number.
  pub remove_log_sink_for_good :
      (id : ℕ) (r s : SinkRegistry S)
      → id < r.next_id
      → Later (remove_log_sink id r).1 s
      → sink_active id s ≡ false
  unfolding sink_active
  remove_log_sink_for_good id r s h later = elim (Bool-cases (id == 0)) [
    | inl e ↦ rw e refl
    | inr e ↦
        sink_active_gone id s
          (Later-IsGone id (remove_log_sink id r).1 s later (remove_log_sink-IsGone id r e h))
  ]
