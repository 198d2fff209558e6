-- ===== src/Tests.antt =====
-- The theorems at concrete cases, plans and command lines, and a few runs of the definitions.
mod Data
mod FixtureData
mod Selection
mod CommandLine
mod Planning
mod Running
mod SharedFixtures
mod Escaping
mod Scheduling
mod Generating
mod Attributes
mod Logging
