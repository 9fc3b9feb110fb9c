-- ===== src/Lib.antt =====
-- HNB-Blockchain: the pool of transactions, the contracts, the application manager and the ledger that
-- a block runs through, the change of epochs in the dbft consensus, and the votes of the agreement.
--
-- A transaction comes to `RecvTx` (HNB/txpool/txpoolServer.go) and waits in the pool, in its account's
-- queue or, where its nonces follow on, among the pending ones, from which a block is proposed; the
-- transactions of a block that is done go back to the pool's loop, which drops what was executed.
-- A block is handed to `BlockProcess` (HNB/appMgr/manager.go). It runs each transaction with the
-- contract that the transaction names; a contract reads and writes its state through an interface
-- with a cache of its own (HNB/appMgr/state.go, memory_cache.go), and reads fall through to the
-- ledger. At the end the caches' contents, the senders' nonces and the block go to `WriteLedger`
-- (HNB/ledger/ledger.go), which writes to the stores of blocks, state and nonces, each a cache over
-- a database. At the end of an epoch the consensus (HNB/consensus/dbft) counts the nodes that ask for
-- the next one, selects its witnesses by the votes of the HNB contract, and has the application
-- manager give the frozen tokens back.
--
-- Files, by the code that they model:
--   Contract/Hnb.antt, Contract/Hnb/Vote.antt, Contract/Hnb/Invoke.antt: HNB/contract/hnb (hnb.go,
--     vote.go): the HNB token, its votes with frozen tokens, and its entry points.
--   Contract/Hgs.antt: HNB/contract/hgs/hgs.go: the HGS token.
--   Contract/Requests.antt, Contract/Amount.antt, Contract/Handler.antt: their requests, their
--     decimal balances, and the interface `ContractInf` of HNB/appMgr/common/server.go.
--   App/StateCache.antt, App/Api.antt, App/Manager.antt, App/Startup.antt: HNB/appMgr
--     (memory_cache.go, state.go, and manager.go: its block loop, and its start and refunds).
--   Ledger/Types.antt, Ledger/StateStore.antt, Ledger/NonceStore.antt, Ledger/BlockStore.antt,
--     Ledger/Write.antt: HNB/ledger (blockStore, stateStore, nonceStore, wrongStore, ledger.go,
--     base.go, index.go) and HNB/common/transaction.go.
--   State.antt: HNB/ledger/stateStore/common/server.go. Hex.antt: `ByteToHex` and `HexToByte` of
--     HNB/msp/crypto.go.
--   Strconv.antt: the parts of Go's strconv that the contracts call.
--   Consensus/Dbft: HNB/consensus/dbft. Types.antt: common/msg.go, epoch.go and the validators of
--     HNB/consensus/algorand/types. Changes.antt: the maps of epochChange.go. Epochs.antt: epoch.go
--     and epochList.go. Witnesses.antt: witnessSelection.go. State.antt: the state of
--     dbftManager.go. Manager.antt: `HandleEpochChange` and
--     what it calls. Entering.antt: `HandleNewEpoch` and `ResetEpoch`. Steps.antt: the steps of the
--     routines of dbftManager.go, one after the other.
--   Txpool: HNB/txpool. Items.antt, SortedMap.antt: the sorted map of tx_list.go, and Ordered.antt, the
--     ascending lists that it is compared with. TxList.antt: the list of an account. Accounts.antt:
--     store.go and the sets of tx_pool.go. Pool.antt: the pool, `validateTx` and `add`. In Pool:
--     Moving.antt (promotion, removal, demotion), Limits.antt (the two limits of
--     `promoteExecutables`), Reset.antt (`addTx`, `reset`, `NewTxPool`), Queries.antt, and Events.antt
--     (the loop, and txpoolServer.go). Consistent.antt and its children, Slots.antt, Splits.antt and
--     Filtering.antt: the agreement of lists, queues and hashes, kept by each operation; Steps.antt:
--     sequences of them.
--   Consensus/Algorand: HNB/consensus/algorand/types. Types.antt: block ids and part set headers of
--     block.go and partSet.go, votes, and the total power of validators. VoteSet.antt: the set of votes
--     of vote.go; in VoteSet, Counts.antt, Tallied.antt, Adding.antt and Returning.antt follow a vote
--     through it, and Agreement.antt compares two sets.
--     HeightVoteSet.antt: height_vote_set.go, the vote sets of a height by rounds.
--   Prelude: integers of 64 bits, byte strings, association lists, results. Tests: concrete inputs.
--
-- Conventions. A function keeps the name that it has in the source, in small letters. A call that
-- changes an object takes the object last and returns it; a call that can fail is an `Action`, which
-- returns the error or the result together with the object as it is left, so what a failing call
-- wrote is kept. Go's `int64` is `ℤ` with wrap-around written out (add64, sub64); `uint64` is `ℕ`
-- with `% 2 ^ 64`. A decimal text is read digit by digit, with no fuel but its length; a number is
-- printed with one unit of fuel for each possible digit, twenty for 64 bits. A map of Go is an
-- association list; where the source ranges over one, the list's order stands for the order that Go
-- picks, which no theorem fixes.
-- A map that is shared by reference stands in a heap, and its holders keep its place.
--
-- Parameters and interfaces. leveldb and gcache are the records `KvStore` and `Cache` of
-- Ledger/Store.antt with the laws that the ledger relies on: the database succeeds, and a cache may
-- forget an entry at any time but answers nothing false. The decoding of requests from JSON is the
-- record `Json`, any four functions. The digest of a block's changes and the texts of errors are
-- functions. Stored documents are kept as the values that they encode.
-- For the consensus, `Services` collects what the manager calls elsewhere: block hashes, signatures
-- and encodings, the votes, the candidates of an epoch, and the start and reset of the agreement
-- protocol. The loop that fills up the witnesses of an epoch takes fuel, a number of passes;
-- Consensus/Dbft/Witnesses/Filling.antt is about its end.
-- For the pool, `Chain` collects what it asks elsewhere: the signer of a transaction, the nonces of the
-- ledger, the contracts' checks, the mode, the clock, and the order of the priority queue
-- HNB/common/prque; no theorem asks anything of them. The index of a sorted map is kept in ascending
-- order, where the source keeps a heap, whose least entry is read, and sorts it. The loops that even out
-- the pending lists take the counter of pending transactions as fuel; Txpool/Pool/Limits/Ending.antt is
-- about their end.
-- For the votes, the digest of a part set header is the function `part_key`, of which nothing is asked.
-- A bit array of HNB/consensus/algorand/common is the list of its bits.
--
-- Not modelled: failures of the database; the encoders; the network (HNB/p2pNetwork, HNB/sync,
-- HNB/access); the journal of the pool of transactions, and the channels of its loop; the handlers of
-- the agreement protocol (HNB/consensus/algorand) and the timers and channels of the consensus; copies
-- of other projects' libraries (HNB/bccsp, HNB/rlp, HNB/common/prque); and the commands and settings.
-- `GetTransaction` and the reads of the ledger take a database that answers.
pub mod Prelude
pub mod Strconv
pub mod Txpool
pub mod State
pub mod App
pub mod Hex
pub mod Ledger
pub mod Contract
pub mod Consensus
mod Tests
