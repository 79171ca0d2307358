-- ===== src/Agent.antt =====
-- services/agent/src: the bidding agent.
pub mod Mandate
