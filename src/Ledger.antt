-- ===== src/Ledger.antt =====
-- ledger: the chain's persistent state.
pub mod Store
pub mod Types
pub mod StateStore
pub mod NonceStore
pub mod BlockStore
pub mod Write
