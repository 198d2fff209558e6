-- ===== src/Selector.antt =====
-- src/runner_selector.cpp and src/runner_tag_utils.h: which cases a run executes.
pub mod Wildcard
pub mod Tags
pub mod Select
