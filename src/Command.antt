-- ===== src/Command.antt =====
-- services/sidecar/src/command_parser: the parser that turns an argv into layers of options and
-- operands by the rules of a registry.
pub mod Words
pub mod Grammar
pub mod Result
pub mod Options
pub mod Guess
pub mod Reading
pub mod Parser
pub mod Registry
pub mod Validation
pub mod Features
pub mod Projection
pub mod Sound
