-- ===== src/Command.antt =====
-- The command line of the extractor, extractor/main.cpp.
pub mod Parse
pub mod Run
pub mod Tokens
pub mod Options
pub mod Outcomes
mod Witness
