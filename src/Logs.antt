-- ===== src/Logs.antt =====
-- src/log_sink.cpp: the registry of the log sinks. `S` is what a sink of a test points to; a handle is
-- its number, 0 for none.
pub mod Removed
use gentest.Base.{
  ℕ, ◌+◌, ◌%◌, ◌^◌, Bool, true, false, not, ◌||◌, Option, none, some, List, [], ◌∷◌, ◌++◌, Bytes,
  ◌==◌, if◌then◌else◌, length, keep,
}

pub data LogSink (S : Type 0) : Type 0 where
  stdout_sink : LogSink S
  sink : S → LogSink S

pub record SinkEntry (S : Type 0) : Type 0 where
  pub id : ℕ
  pub target : LogSink S

pub record SinkRegistry (S : Type 0) : Type 0 where
  pub next_id : ℕ
  pub sinks : List (SinkEntry S)

module _ {S : Type 0} where
  -- The registry when it is first used.
  abbrev pub first_registry : SinkRegistry S
  first_registry = record { next_id = 2; sinks = (record { id = 1; target = stdout_sink }) ∷ [] }

  unfoldable pub any_sink : ℕ → List (SinkEntry S) → Bool
  any_sink id [] = false
  any_sink id (entry ∷ sinks) = entry.id == id || any_sink id sinks

  unfoldable pub sink_active : ℕ → SinkRegistry S → Bool
  unfolding any_sink
  sink_active id r = if id == 0 then false else any_sink id r.sinks

  abbrev pub is_other : ℕ → SinkEntry S → Bool
  is_other id entry = not (entry.id == id)

  -- Was there such a sink, and the registry without it.
  unfoldable pub remove_sink : ℕ → SinkRegistry S → Bool × SinkRegistry S
  remove_sink id r =
      let kept = keep (is_other id) r.sinks in
      if id == 0
      then (false, r)
      else (not (length kept == length r.sinks), record r { sinks = kept })

  -- The entry of a sink under the next number, which is counted on in std::size_t.
  unfoldable pub append_sink : LogSink S → SinkRegistry S → SinkRegistry S
  append_sink target r = record {
    next_id = (r.next_id + 1) % 2 ^ 64;
    sinks = r.sinks ++ (record { id = r.next_id; target = target }) ∷ [];
  }

  -- The handle, and the registry.
  unfoldable pub add_log_sink : Option S → SinkRegistry S → ℕ × SinkRegistry S
  unfolding append_sink
  add_log_sink none r = (0, r)
  add_log_sink (some target) r = (r.next_id, append_sink (sink target) r)

  -- The answer and the handle, which is emptied, and the registry.
  unfoldable pub remove_log_sink : ℕ → SinkRegistry S → (Bool × ℕ) × SinkRegistry S
  unfolding remove_sink
  remove_log_sink handle r = let removed = remove_sink handle r in ((removed.0, 0), removed.1)

  unfoldable pub remove_all_log_sinks : SinkRegistry S → SinkRegistry S
  remove_all_log_sinks r = record r { sinks = [] }

  unfoldable pub restore_default_log_sink : SinkRegistry S → SinkRegistry S
  unfolding append_sink
  restore_default_log_sink r = append_sink stdout_sink (record r { sinks = [] })

  -- What a message is written to, in order.
  unfoldable pub dispatch_log_to_sinks : List (SinkEntry S) → Bytes → List (LogSink S × Bytes)
  dispatch_log_to_sinks [] message = []
  dispatch_log_to_sinks (entry ∷ sinks) message =
      (entry.target, message) ∷ dispatch_log_to_sinks sinks message
