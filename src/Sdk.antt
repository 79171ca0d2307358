-- ===== src/Sdk.antt =====
-- packages/sdk/src: the client library's pure checks.
pub mod Conservation
pub mod Preflight
pub mod RoundStatus
pub mod ReceiptEvents
