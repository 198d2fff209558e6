-- ===== src/Plan.antt =====
-- src/runner_test_plan.cpp: the order in which selected tests run.
pub mod Table
pub mod Build
pub mod Order
