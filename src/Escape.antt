-- ===== src/Escape.antt =====
-- The escaping functions of src/runner_reporting.cpp and src/runner_orchestrator.cpp.
pub mod Github
pub mod Xml
pub mod Json
