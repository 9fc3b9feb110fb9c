-- ===== src/Contract.antt =====
-- contract: the two token contracts.
pub mod Requests
pub mod Amount
pub mod Hnb
pub mod Hgs
pub mod Handler
