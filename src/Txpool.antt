-- ===== src/Txpool.antt =====
-- txpool: the pool of transactions that wait for a block.
pub mod Items
pub mod Ordered
pub mod SortedMap
pub mod TxList
pub mod Accounts
pub mod Pool
