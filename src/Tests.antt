-- ===== src/Tests.antt =====
-- Concrete states and inputs, and the theorems at them.
mod Backends
mod Contracts
mod Votes
mod Pools
mod Agreement
mod Ledgers
mod Managers
mod Consensus
mod Startup
