-- ===== src/Keeper/Tick.antt =====
-- services/keeper/src/keeper.ts: one pass of the keeper over a round, and the finding of rounds.
pub mod World
pub mod Close
pub mod Keep
pub mod Void
pub mod Watch
pub mod Find
mod Keeps
mod Once
mod Tests
