-- ===== src/Tlock.antt =====
-- packages/tlock: the bytes that a bidder commits to and seals, and the rounds that it seals to.
pub mod Commitment
pub mod Payload
pub mod Window
pub mod Freshness
pub mod Hex
mod Tests
