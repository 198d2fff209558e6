-- ===== src/Results.antt =====
-- src/runner_case_result.cpp, src/runner_test_executor.cpp and the accumulator of
-- src/runner_reporting.cpp: what becomes of a test case that has run.
pub mod Model
pub mod Record
pub mod Finish
pub mod Execute
pub mod Invoke
pub mod Sync
