-- ===== src/Consensus/Dbft.antt =====
-- consensus/dbft: the change of epochs and the choice of an epoch's witnesses.
pub mod Types
pub mod Changes
pub mod Epochs
pub mod Witnesses
pub mod State
pub mod Manager
pub mod Entering
pub mod Steps
