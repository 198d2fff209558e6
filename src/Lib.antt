-- ===== src/Lib.antt =====
-- The runner of gentest, a C++ test framework: how a command line is read, how it selects test cases,
-- how the selected cases are planned by suite and fixture, and what running them leaves in the
-- counters and the report; and how its code generator reads and validates the attributes of a test.
--
-- The parts, in the order in which a run goes through them:
-- * Cli (src/runner_cli.cpp, src/runner_cli.h): `parse_cli` reads the arguments into CliOptions.
--   `parse_argument` is one round of its loop, `parse_value_option` and `match_value` the lambdas that
--   every option with a value goes through, and the functions named `..._value_of` the lambdas of the
--   single options. Options holds the record CliOptions and its enums.
-- * Selector (src/runner_selector.cpp, src/runner_tag_utils.h): `select_cases` turns the options into
--   the indices of the cases to run, with a status.
-- * Plan (src/runner_test_plan.cpp): `build_suite_execution_plan` groups these indices by suite and by
--   shared fixture, and shuffles within the groups. Table is the vector with a hash map beside it
--   that the code keeps for suites and for fixtures.
-- * Results (src/runner_case_result.cpp, src/runner_test_executor.cpp, the accumulator of
--   src/runner_reporting.cpp, and `acquire_case_fixture` of src/runner_fixture_runtime.cpp): Finish is
--   `finish_invoke_result`, one function for each of its exits; Invoke (src/runner_case_invoker.cpp) is
--   the call of a test with its exception handlers; Execute runs one case and records it;
--   Sync is `run_tests_sync`, which runs the plans in order.
-- * Fixtures (src/runner_fixture_runtime.cpp): the shared fixtures of a process. Registration is
--   `register_shared_fixture`; Gate is the lock of a run, Exclusion its state machine; Phase is one
--   call of a fixture's callback; Setup and Teardown are the loops of `setup_shared_fixtures` and
--   `teardown_shared_fixtures`, each beside a plain pass over the entries (Setup/Pass,
--   Teardown/Pass); Lookup is `get_shared_fixture`, and Session a run from its setup to its
--   teardown. Session/Acquire puts Lookup behind the interface that Results/Execute uses.
-- * Async (src/async_timer_queue.h, src/async_scheduler_core.h): Timers is the queue of the timers,
--   Scheduler the frames, the ready queue and the suspended frames, with Steps for its operations as a
--   step relation.
-- * Escape (src/runner_reporting.cpp, src/runner_orchestrator.cpp): the escapes of the GitHub
--   annotations (Github) and of the XML report with the UTF-8 decoder under it (Xml), and the JSON
--   string writer of the listing (Json).
-- * Generator (tools/src): the parts of the code generator that work on text and lists. Axes is the
--   product of parameter axes (axis_expander.hpp). Unquote, Characters, Literal, Angles, Arguments and
--   Attributes are parse_core.cpp: Arguments is `split_arguments`, with the test for template brackets
--   in Angles, and Attributes/Parse is `parse_attribute_list`; Arguments/Printed and
--   Attributes/Parse/Printed write arguments and attributes down. Validate is validate.cpp: one
--   function for each branch of `validate_attributes` (Branches, Parameters), its loop in Attributes,
--   and the attributes of fixture types and namespaces in Scopes.
-- * Logs (src/log_sink.cpp): the registry of the log sinks.
-- Cases is the registered test case of include/gentest/detail/case_api.h, on which all of them work.
-- Base has what the modules share, and Tests applies the theorems at concrete inputs.
--
-- State is passed explicitly: `Parsing` is the set of local variables of `parse_cli`, `Run` the
-- counters, the context with its accumulator, and the state of everything else in the process. Text is
-- a list of bytes. Numbers are natural numbers; where the code computes in 64 bits the wrap-around is
-- written out, std::size_t is taken to have 64 bits, and counters are not bounded.
--
-- Parameters: `Doubles` is the type double with std::stod, `Process` the environment, the terminal and
-- the random device, `Shuffling` std::hash and std::shuffle, which is assumed to permute its range,
-- `Runtime` the call of a test's function and the lookup of shared fixtures, and `Callbacks` the
-- create, setup and teardown functions of the fixtures, each of which may throw.
--
-- Fuel: the loop of `wildcard_match` has (|text| + 1) * (|pattern| + 1) rounds, since every retry moves
-- the mark forward in the text and every other round moves forward in the pattern; the loop of
-- `sanitize_xml_text` and of `append_json_string` has |text| rounds, since each takes a byte at least.
-- The loop of `setup_shared_fixtures` has one round for each entry and a last one, since each round
-- settles an entry. The outer loop of `parse_attribute_list` and its loop over scopes have |list| + 1
-- rounds, since each takes a byte at least. The other loops are recursions on lists.
--
-- Not modelled: what is printed, the asynchronous executor, the scheduler's cancellation with the
-- links between frames and its waiter tokens, measured cases, the report files, the writer behind the
-- standard log sink, the rest of the orchestrator, assertions and mocks, and the rest of the code
-- generator under tools, most of which works on the syntax trees of clang.
pub mod Base
pub mod Cases
pub mod Options
pub mod Selector
pub mod Cli
pub mod Plan
pub mod Results
pub mod Fixtures
pub mod Async
pub mod Escape
pub mod Generator
pub mod Logs
pub mod Tests
