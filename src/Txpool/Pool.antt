-- ===== src/Txpool/Pool.antt =====
-- txpool/tx_pool.go: the state of the pool, and how a transaction enters it.
--
-- The journal of the source is never opened with its settings, and its functions are empty.
pub mod Moving
pub mod Limits
pub mod Guards
pub mod Slots
pub mod Splits
pub mod Filtering
pub mod Consistent
pub mod Steps
pub mod Proposals
pub mod Reset
pub mod Queries
pub mod Events
use hnb_blockchain.Prelude.{
  ℕ, ◌+◌, ◌%◌, ◌^◌, ltb, leb, if◌then◌else◌, not, ◌&&◌, Bool, true, false, Option, none, some, List,
  [], ◌∷◌,
}
use hnb_blockchain.Prelude.Bytes.{Bytes, bytes_equal}
use hnb_blockchain.Prelude.Assoc.{Dict, lookup, insert, erase}
use hnb_blockchain.Prelude.Result.{Result, ok, err, Error, Action}
use hnb_blockchain.Ledger.Types.{Transaction}
use hnb_blockchain.Txpool.TxList
use hnb_blockchain.Txpool.TxList.{TxList, new_tx_list, overlaps}
use hnb_blockchain.Txpool.Accounts.{
  PendingCache, new_pending_nonce, set_nonce, AccountSet, new_account_set, contains, add_account,
  present, TxLookup, new_tx_lookup, get_tx, count, add_tx, remove_tx,
}

-- What the pool asks elsewhere: the signer of a transaction (`msp.Sender`), the nonces of the ledger,
-- the contracts' checks (`appMgr.CheckTx`), the mode, the clock, and the order in which the queue of
-- HNB/common/prque gives back its entries.
pub record Chain : Type 0 where
  pub sender : Transaction → Option Bytes
  pub ledger_nonce : Bytes → ℕ
  pub check_tx : Transaction → Result (Unit {0})
  pub dev : Bool
  pub now : ℕ
  pub spam_order : List (Bytes × ℕ) → List Bytes

pub record TxPoolConfig : Type 0 where
  pub no_locals : Bool
  pub account_slots : ℕ
  pub global_slots : ℕ
  pub account_queue : ℕ
  pub global_queue : ℕ
  pub lifetime : ℕ

-- Times are in seconds.
abbrev pub default_tx_pool_config : TxPoolConfig
default_tx_pool_config = record {
  no_locals = false;
  account_slots = 16;
  global_slots = 4096;
  account_queue = 64;
  global_queue = 1024;
  lifetime = 10800;
}

-- `notify` counts the signals in the channel of ten places.
pub record TxPool : Type 0 where
  pub config : TxPoolConfig
  pub pending_state : PendingCache
  pub locals : AccountSet
  pub pending : Dict TxList
  pub queue : Dict TxList
  pub beats : Dict ℕ
  pub all : TxLookup
  pub notify : ℕ

-- Where the settings ask for it, the signer is the account that the transaction names.
abbrev pub signed_by : Chain → Transaction → Option Bytes → Result Bytes
signed_by c tx none = err Error.invalid_sender
signed_by c tx (some from) =
    if c.dev && not (bytes_equal from tx.from) then err Error.from_differs else ok from

abbrev pub validate_from : Chain → Transaction → Result Bytes → Result (Unit {0})
validate_from c tx (err e) = err e
validate_from c tx (ok from) =
    if ltb tx.nonce_value (c.ledger_nonce from) then err Error.nonce_too_low else c.check_tx tx

-- Whether the sender is local decides nothing here.
unfoldable pub validate_tx : Chain → Transaction → Result (Unit {0})
validate_tx c tx = validate_from c tx (signed_by c tx (c.sender tx))

abbrev pub list_or_new : Bool → Option TxList → TxList
list_or_new strict none = new_tx_list strict
list_or_new strict (some l) = l

-- A transaction that another one replaced is forgotten.
abbrev pub forget : Option Transaction → TxLookup → TxLookup
forget none all = all
forget (some old) all = remove_tx old.txid all

unfoldable pub know : Bytes → Transaction → TxLookup → TxLookup
know hash tx all = if present (get_tx hash all) then all else add_tx tx all

abbrev pub enqueued : Bool → Option Transaction → Bytes → Transaction → Action TxPool Bool
enqueued false old hash tx pool = (err Error.replace_underpriced, pool)
enqueued true old hash tx pool =
    (ok (present old), record pool { all = know hash tx (forget old pool.all) })

unfoldable pub enqueue_tx : Bytes → Transaction → Action TxPool Bool
unfolding know
enqueue_tx hash tx pool =
    let (l, inserted, old) = TxList.add tx (list_or_new false (lookup tx.from pool.queue)) in
    enqueued inserted old hash tx (record pool { queue = insert tx.from l pool.queue })

abbrev pub overlaps_pending : Transaction → Option TxList → Bool
overlaps_pending tx none = false
overlaps_pending tx (some l) = overlaps tx l

unfoldable pub mark_local : Bool → Bytes → AccountSet → AccountSet
mark_local local from s = if local && not (contains from s) then add_account from s else s

abbrev pub marked : Bool → Bytes → Result Bool × TxPool → Result Bool × TxPool
marked local from (err e, pool) = (err e, pool)
marked local from (ok replace, pool) =
    (ok replace, record pool { locals = mark_local local from pool.locals })

-- Behind the guards.
unfoldable pub add_valid : Transaction → Bool → Action TxPool Bool
unfolding enqueue_tx mark_local
add_valid tx local pool =
    if overlaps_pending tx (lookup tx.from pool.pending)
    then (ok false, pool)
    else marked local tx.from (enqueue_tx tx.txid tx pool)

abbrev pub add_validated : Result (Unit {0}) → Transaction → Bool → Action TxPool Bool
add_validated (err e) tx local pool = (err e, pool)
add_validated (ok u) tx local pool =
    if leb ((pool.config.global_slots + pool.config.global_queue) % 2 ^ 64) (count pool.all)
    then (err Error.queue_full, pool)
    else add_valid tx local pool

unfoldable pub add : Chain → Transaction → Bool → Action TxPool Bool
unfolding add_valid validate_tx
add c tx local pool =
    if present (get_tx tx.txid pool.all)
    then (err Error.known_tx, pool)
    else add_validated (validate_tx c tx) tx local pool
