-- ===== src/Generator.antt =====
-- The parts of the code generator under tools that work on text and lists alone.
pub mod Axes
pub mod Unquote
pub mod Characters
pub mod Literal
pub mod Angles
pub mod Arguments
pub mod Attributes
pub mod Validate
