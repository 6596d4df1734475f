-- ===== src/Example.antt =====
-- An example of the other modules, states on it, and the theorems applied to them.
pub mod World
pub mod Laws
pub mod Codec
mod Keys
mod Keyed
mod Answers
mod Outcomes
mod Treasury
pub mod Tests
mod Runs
mod Witnesses
