-- ===== src/Cli.antt =====
-- src/runner_cli.cpp: the command line.
pub mod Decimal
pub mod Host
pub mod Values
pub mod State
pub mod Arguments
pub mod Parse
