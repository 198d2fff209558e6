-- ===== src/Tests/Logging.antt =====
-- The registry of the log sinks at small inputs.
use gentest.Base.{ℕ, ◌≡◌, refl, true, false, some, [], ◌∷◌, codes, arith}
use gentest.Logs.{
  stdout_sink, sink, SinkRegistry, first_registry, sink_active, add_log_sink, remove_log_sink,
  dispatch_log_to_sinks,
}
use gentest.Logs.Removed.{adds, now, then_step, remove_log_sink_for_good}

-- The registry with one sink more, without it again, and with another one.
abbrev one_more : SinkRegistry ℕ
one_more = (add_log_sink (some 7) first_registry).1

abbrev removed : SinkRegistry ℕ
removed = (remove_log_sink 2 one_more).1

abbrev another : SinkRegistry ℕ
another = (add_log_sink (some 8) removed).1

written_in_order :
    dispatch_log_to_sinks one_more.sinks (codes "x")
    ≡ (stdout_sink, codes "x") ∷ (sink 7, codes "x") ∷ []
unfolding dispatch_log_to_sinks add_log_sink
written_in_order = refl

added : sink_active 3 another ≡ true
unfolding sink_active add_log_sink remove_log_sink
added = refl

remove_log_sink_for_good_example : sink_active 2 another ≡ false
unfolding add_log_sink remove_log_sink
remove_log_sink_for_good_example =
    remove_log_sink_for_good 2 one_more another (omega arith)
      (then_step removed another now (adds (some 8) (omega arith)))
