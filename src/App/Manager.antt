-- ===== src/App/Manager.antt =====
-- appMgr/manager.go: the application manager, which runs the transactions of a block. The map behind
-- a `StateCache` is shared by reference: it stands in a heap, and the interface of a contract holds
-- its place.
pub mod Rollback
pub mod Digest
pub mod Nonces
use hnb_blockchain.Prelude.{
  ℕ, suc, ◌+◌, ◌%◌, ◌^◌, ◌==◌, ◌++◌, if◌then◌else◌, Option, none, some, List, [], ◌∷◌,
}
use hnb_blockchain.Prelude.Bytes.{Bytes}
use hnb_blockchain.Prelude.Assoc.{Dict, lookup, insert}
use hnb_blockchain.Prelude.Result.{Result, ok, err, Error, Action, or_fail}
use hnb_blockchain.State.{StateItem, Ledger}
use hnb_blockchain.App.StateCache.{StateCache, values}
use hnb_blockchain.App.Api.{ContractApi, get_contract_api, set_args, set_from}
use hnb_blockchain.Contract.Handler.{ContractInf}
use hnb_blockchain.Contract.Hnb.Invoke.{Reply}
use hnb_blockchain.Ledger.Types.{Transaction, Block, NonceItem, Backend}
use hnb_blockchain.Ledger.Write.{LedgerHandler, get_contract_state, set_wrong_index, write_ledger}

-- `appManager`: the contracts by their chains' names.
pub record AppManager : Type 0 where
  pub scs : Dict ContractInf

unfoldable pub set_handler : Bytes → ContractInf → AppManager → AppManager
set_handler chain_id inf am = record { scs = insert chain_id inf am.scs }

unfoldable pub get_handler : Bytes → AppManager → Result ContractInf
get_handler chain_id am = or_fail (lookup chain_id am.scs) Error.chain_not_exist

-- `CheckTx`: the contract's own check, on an interface that is thrown away.
unfoldable pub check_tx : AppManager → Ledger → Transaction → Result (Unit {0})
check_tx am ledger tx = elim (get_handler tx.contract_name am) [
  | err e ↦ err e
  | ok handler ↦
      (handler.check_tx ledger
        (set_from tx.from (set_args tx.payload (get_contract_api tx.contract_name)))).0
]

-- `Query`. Where the source calls a method of a contract that is not there, a panic, this is an error.
unfoldable pub query : AppManager → Ledger → Bytes → Bytes → Result Reply
query am ledger chain_id args = elim (get_handler chain_id am) [
  | err e ↦ err e
  | ok h ↦ (h.query ledger (set_args args (get_contract_api chain_id))).0
]

-- The maps that the caches point to.
pub record Heap : Type 0 where
  pub next : ℕ
  pub cell : ℕ → Dict StateItem

-- A `contractApi`, with the place of its cache's map.
pub record Handle : Type 0 where
  pub args : Bytes
  pub ref : ℕ
  pub chain_id : Bytes
  pub from : Bytes

unfoldable pub store_cell : ℕ → Dict StateItem → Heap → Heap
store_cell ref m heap = record heap { cell = λ r. if r == ref then m else heap.cell r }

-- `GetContractApi`, with a new map.
unfoldable pub new_handle : Bytes → Heap → Handle × Heap
unfolding store_cell
new_handle chain_id heap = (
  record { args = []; ref = heap.next; chain_id = chain_id; from = [] },
  record { next = suc heap.next; cell = (store_cell heap.next [] heap).cell },
)

unfoldable pub api_of : Heap → Handle → ContractApi
api_of heap h = record {
  args = h.args;
  sc = record { memory = heap.cell h.ref };
  chain_id = h.chain_id;
  from = h.from;
}

-- `GetSnapshot` returns the live map, so a snapshot is the map's place.
unfoldable pub get_snapshot : Handle → ℕ
get_snapshot h = h.ref

unfoldable pub snapshot_restore : ℕ → Handle → Handle
snapshot_restore si h = record h { ref = si }

-- The handles of a block's contracts, in the order of the map's iteration.
unfoldable pub all_states : Heap → Dict Handle → List StateItem
unfolding values
all_states heap [] = []
all_states heap ((k, h) ∷ hs) = values (heap.cell h.ref) ++ all_states heap hs

unfoldable pub nonce_item : Transaction → NonceItem
nonce_item tx = record { key = tx.from; nonce = (tx.nonce_value + 1) % 2 ^ 64 }

module _ (b : Backend) where
  -- What the loop over a block's transactions keeps.
  pub record Run : Type 0 where
    pub heap : Heap
    pub api_handlers : Dict Handle
    pub ledger : LedgerHandler b
    pub nonces : List NonceItem

  abbrev pub reads : LedgerHandler b → Ledger
  reads lh c k = ok (get_contract_state b c k lh)

  -- `apiHandlers[tx.ContractName]`, made on the first use.
  unfoldable pub handle_for : Bytes → Run → Handle × Heap
  unfolding new_handle
  handle_for name r = elim (lookup name r.api_handlers) [
    | some h ↦ (h, r.heap)
    | none ↦ new_handle name r.heap
  ]

  unfoldable pub start : LedgerHandler b → Run
  start lh = record {
    heap = record { next = 0; cell = λ r. [] };
    api_handlers = [];
    ledger = lh;
    nonces = [];
  }

-- `message` is the text of an error.
module _ (b : Backend) (message : Error → Bytes) where
  -- The handle and the ledger after a call that ended in `result`.
  unfoldable pub settle :
      Transaction → ℕ → Result (Unit {0}) → Handle → LedgerHandler b → Handle × LedgerHandler b
  settle tx snapshot (ok _) h lh = (h, lh)
  settle tx snapshot (err e) h lh =
      (snapshot_restore snapshot h, set_wrong_index b tx.txid (message e) lh)

  -- One transaction with its contract. The contract changes the map in its place.
  unfoldable pub run_tx : ContractInf → Transaction → Run b → Run b
  unfolding handle_for settle nonce_item api_of store_cell get_snapshot snapshot_restore
  run_tx handler tx r =
      let found = handle_for b tx.contract_name r in
      let h : Handle = record (found.0) { args = tx.payload; from = tx.from } in
      let called = handler.invoke (reads b r.ledger) (api_of found.1 h) in
      let settled = settle tx (get_snapshot h) called.0 h r.ledger in
      record {
        heap = store_cell h.ref called.1.sc.memory found.1;
        api_handlers = insert tx.contract_name settled.0 r.api_handlers;
        ledger = settled.1;
        nonces = r.nonces ++ nonce_item tx ∷ [];
      }

  -- A contract that is not there ends the loop with an error.
  unfoldable pub run_with :
      (Run b → Result (Unit {0}) × Run b)
      → Transaction
      → Result ContractInf
      → Action (Run b) (Unit {0})
  unfolding run_tx
  run_with rest tx (err e) r = (err e, r)
  run_with rest tx (ok handler) r = rest (run_tx handler tx r)

  unfoldable pub run_txs : AppManager → List Transaction → Action (Run b) (Unit {0})
  unfolding run_with
  run_txs am [] r = (ok tt, r)
  run_txs am (tx ∷ txs) r =
      let rest : (Run b → Result (Unit {0}) × Run b) = λ r'. run_txs am txs r' in
      run_with rest tx (get_handler tx.contract_name am) r

-- `hash` is the digest of the JSON of a change set.
module _ (b : Backend) (message : Error → Bytes)
    (hash : List StateItem → List NonceItem → Bytes) where
  -- The end of `BlockProcess`: the hash is taken before the state changes are collected.
  unfoldable pub finish : Block → Run b → Result (Unit {0}) × LedgerHandler b
  unfolding all_states
  finish blk r =
      let state_hash = hash [] r.nonces in
      write_ledger b (record blk { header = record (blk.header) { state_hash = state_hash } })
        (all_states r.heap r.api_handlers) r.nonces r.ledger

  unfoldable pub conclude : Block → Result (Unit {0}) × Run b → Result (Unit {0}) × LedgerHandler b
  unfolding finish
  conclude blk (err e, r) = (err e, r.ledger)
  conclude blk (ok _, r) = finish blk r

  unfoldable pub block_process : AppManager → Block → Action (LedgerHandler b) (Unit {0})
  unfolding run_txs start conclude
  block_process am blk lh = conclude blk (run_txs b message am blk.txs (start b lh))
