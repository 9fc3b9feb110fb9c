-- ===== src/App.antt =====
-- appMgr: the state cache and the contract interface that a contract runs against.
pub mod StateCache
pub mod Api
pub mod Commit
pub mod Manager
pub mod Startup
