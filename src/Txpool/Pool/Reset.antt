-- ===== src/Txpool/Pool/Reset.antt =====
-- txpool/tx_pool.go: the calls on the pool and the events of its loop.
use hnb_blockchain.Prelude.{
  ◌+◌, ◌%◌, ◌^◌, ltb, if◌then◌else◌, not, Bool, true, false, Option, none, some, List, [], ◌∷◌,
}
use hnb_blockchain.Prelude.Bytes.{Bytes}
use hnb_blockchain.Prelude.Assoc.{Dict, insert}
use hnb_blockchain.Prelude.Result.{Result, ok, err, Error, Action}
use hnb_blockchain.Ledger.Types.{Transaction}
use hnb_blockchain.Txpool.TxList
use hnb_blockchain.Txpool.TxList.{TxList}
use hnb_blockchain.Txpool.Accounts
use hnb_blockchain.Txpool.Accounts.{
  contains, add_account, set_nonce, new_pending_nonce, new_account_set, new_tx_lookup, nonce_or,
  keys_of, present, get_tx,
}
use hnb_blockchain.Txpool.Pool.{Chain, TxPool, TxPoolConfig, add}
use hnb_blockchain.Txpool.Pool.Moving.{promote_accounts, demote_unexecutables}
use hnb_blockchain.Txpool.Pool.Limits.{limit_pending, limit_queue}

-- A signal, where the channel has room.
unfoldable pub notify : TxPool → TxPool
notify pool = if ltb pool.notify 10 then record pool { notify = pool.notify + 1 } else pool

abbrev pub accounts_or : Option (List Bytes) → TxPool → List Bytes
accounts_or none pool = keys_of pool.queue
accounts_or (some accounts) pool = accounts

-- With no accounts given, all that have a queue.
unfoldable pub promote_executables : Chain → Option (List Bytes) → TxPool → TxPool
unfolding promote_accounts notify limit_pending limit_queue
promote_executables c accounts pool =
    limit_queue c (limit_pending c (notify (promote_accounts c (accounts_or accounts pool) pool)))

abbrev pub after_add : Chain → Transaction → Result Bool × TxPool → Result (Unit {0}) × TxPool
after_add c tx (err e, pool) = (err e, pool)
after_add c tx (ok replace, pool) = (ok tt, promote_executables c (some (tx.from ∷ [])) pool)

unfoldable pub add_tx : Chain → Transaction → Bool → Action TxPool (Unit {0})
unfolding promote_executables add
add_tx c tx local pool = after_add c tx (add c tx local pool)

unfoldable pub add_local : Chain → Transaction → Action TxPool (Unit {0})
unfolding add_tx
add_local c tx pool = add_tx c tx (not pool.config.no_locals) pool

unfoldable pub add_remote : Chain → Transaction → Action TxPool (Unit {0})
unfolding add_tx
add_remote c tx pool = add_tx c tx false pool

-- What the loop over a batch leaves: the errors in order, the accounts to look at, and the pool.
pub record Batch : Type 0 where
  pub errs : List (Option Error)
  pub dirty : Dict (Unit {0})
  pub pool : TxPool

abbrev pub batch_added :
    Transaction → Result Bool → Dict (Unit {0}) → Option Error × Dict (Unit {0})
batch_added tx (err e) dirty = (some e, dirty)
batch_added tx (ok true) dirty = (none, dirty)
batch_added tx (ok false) dirty = (none, insert tx.from tt dirty)

unfoldable pub add_batch : Chain → List Transaction → Bool → Dict (Unit {0}) → TxPool → Batch
unfolding add
add_batch c [] local dirty pool = record { errs = []; dirty = dirty; pool = pool }
add_batch c (tx ∷ txs) local dirty pool =
    let (r, p) = add c tx local pool in
    let (e, d) = batch_added tx r dirty in
    let rest = add_batch c txs local d p in record rest { errs = e ∷ rest.errs }

abbrev pub promote_dirty : Chain → Dict (Unit {0}) → TxPool → TxPool
promote_dirty c [] pool = pool
promote_dirty c (a ∷ dirty) pool = promote_executables c (some (keys_of (a ∷ dirty))) pool

unfoldable pub add_txs_locked :
    Chain → List Transaction → Bool → TxPool → TxPool × List (Option Error)
unfolding add_batch promote_executables
add_txs_locked c txs local pool =
    let b = add_batch c txs local [] pool in (promote_dirty c b.dirty b.pool, b.errs)

unfoldable pub add_locals : Chain → List Transaction → TxPool → TxPool × List (Option Error)
unfolding add_txs_locked
add_locals c txs pool = add_txs_locked c txs (not pool.config.no_locals) pool

unfoldable pub add_remotes : Chain → List Transaction → TxPool → TxPool × List (Option Error)
unfolding add_txs_locked
add_remotes c txs pool = add_txs_locked c txs false pool

-- The transactions of each account, and the lists with their caches.
unfoldable pub flatten_lists : Dict TxList → Dict TxList × Dict (List Transaction)
flatten_lists [] = ([], [])
flatten_lists ((addr, l) ∷ m) =
    let (l', txs) = TxList.flatten l in
    let (m', all) = flatten_lists m in ((addr, l') ∷ m', (addr, txs) ∷ all)

-- The last transaction of a list; of an empty one there is none, and the source panics.
abbrev pub last_of : List Transaction → Option Transaction
last_of [] = none
last_of (tx ∷ []) = some tx
last_of (tx ∷ x ∷ txs) = last_of (x ∷ txs)

abbrev pub next_nonce :
    Bytes → Option Transaction → Accounts.PendingCache → Option Accounts.PendingCache
next_nonce addr none pc = none
next_nonce addr (some tx) pc = some (set_nonce addr ((tx.nonce_value + 1) % 2 ^ 64) pc)

-- The nonces after the last pending ones; `none` where the source panics.
unfoldable pub next_nonces :
    Dict (List Transaction) → Accounts.PendingCache → Option Accounts.PendingCache
next_nonces [] pc = some pc
next_nonces ((addr, txs) ∷ m) pc = elim (next_nonce addr (last_of txs) pc) [
  | none ↦ none
  | some pc' ↦ next_nonces m pc'
]

abbrev pub finish_reset : Chain → Option Accounts.PendingCache → TxPool → Option TxPool
finish_reset c none pool = none
finish_reset c (some pc) pool =
    some (promote_executables c none (record pool { pending_state = pc }))

unfoldable pub update_nonces : Chain → TxPool → Option TxPool
unfolding next_nonces flatten_lists promote_executables
update_nonces c pool =
    let (m, txs) = flatten_lists pool.pending in
    finish_reset c (next_nonces txs pool.pending_state) (record pool { pending = m })

-- `none` where the source panics.
unfoldable pub reset : Chain → List Transaction → TxPool → Option TxPool
unfolding add_txs_locked demote_unexecutables update_nonces
reset c reinject pool =
    update_nonces c (demote_unexecutables c (add_txs_locked c reinject false pool).0)

unfoldable pub add_accounts : List Bytes → Accounts.AccountSet → Accounts.AccountSet
add_accounts [] s = s
add_accounts (addr ∷ addrs) s = add_accounts addrs (add_account addr s)

unfoldable pub empty_tx_pool : TxPoolConfig → List Bytes → TxPool
unfolding add_accounts
empty_tx_pool config locals = record {
  config = config;
  pending_state = new_pending_nonce;
  locals = add_accounts locals new_account_set;
  pending = [];
  queue = [];
  beats = [];
  all = new_tx_lookup;
  notify = 0;
}

unfoldable pub new_tx_pool : Chain → TxPoolConfig → List Bytes → Option TxPool
unfolding reset empty_tx_pool
new_tx_pool c config locals = reset c [] (empty_tx_pool config locals)
