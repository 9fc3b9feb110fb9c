-- ===== src/Consensus.antt =====
-- The consensus engines.
pub mod Dbft
pub mod Algorand
