-- ===== src/Consensus/Algorand.antt =====
-- consensus/algorand: the votes of the agreement protocol.
pub mod Types
pub mod VoteSet
pub mod HeightVoteSet
