-- ===== src/Keeper.antt =====
-- services/keeper/src: the service that opens, clears, settles and voids rounds.
pub mod Guard
pub mod Checkpoint
pub mod Store
pub mod Queue
pub mod Tick
pub mod Startup
