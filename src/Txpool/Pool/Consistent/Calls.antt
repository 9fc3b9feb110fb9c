-- ===== src/Txpool/Pool/Consistent/Calls.antt =====
-- txpool/tx_pool.go: the calls on the pool, and the events of its loop, keep it consistent.
use hnb_blockchain.Prelude.{◌<◌, ◌^◌, Bool, true, false, Option, none, some, List, [], ◌∷◌}
use hnb_blockchain.Prelude.Bytes.{Bytes}
use hnb_blockchain.Prelude.Assoc.{Dict, lookup}
use hnb_blockchain.Prelude.Result.{Result, ok}
use hnb_blockchain.Ledger.Types.{Transaction}
use hnb_blockchain.Txpool.Accounts.{TxLookup, get_tx, add_tx, remove_tx}
use hnb_blockchain.Txpool.Accounts.{present, set_nonce}
use hnb_blockchain.Txpool.Pool.{TxPool, Chain}
use hnb_blockchain.Txpool.Accounts.{get_nonce, contains}
use hnb_blockchain.Txpool.Accounts
use hnb_blockchain.Txpool.Pool.Moving.{demote_unexecutables}
use hnb_blockchain.Txpool.Pool.Consistent.Placing.{Sound}
use hnb_blockchain.Txpool.Pool.Consistent.Removing.{remove_each-Sound}
use hnb_blockchain.Txpool.Pool.Limits.{flat_queue, flat_queue}
use hnb_blockchain.Txpool.Pool.Reset.{notify, promote_executables, accounts_or}
use hnb_blockchain.Txpool.Pool.Consistent.Adding.{add-Sound}
use hnb_blockchain.Txpool.Pool.Consistent.Demotion.{demote_unexecutables-Sound}
use hnb_blockchain.Txpool.Pool.Consistent.Limiting.{if_pool, promote_executables-Sound, flat-Sound}
use hnb_blockchain.Txpool.Pool.{add}
use hnb_blockchain.Prelude.Result.{err}
use hnb_blockchain.Txpool.Pool.Reset
use hnb_blockchain.Txpool.Pool.Reset.{
  after_add, add_local, add_remote, Batch, batch_added, add_batch, promote_dirty, add_txs_locked,
  flatten_lists, next_nonces, finish_reset, update_nonces, reset, new_tx_pool, add_accounts,
}
use hnb_blockchain.Txpool.Pool.Events.{
  is_old, drop_old, evict_account, evict_accounts, evict, Event, recv_blk_txs, evict_tick,
  loop_step,
}
use hnb_blockchain.Txpool.Pool.Consistent.Flattening.{flattened-Sound}

-- Every nonce is a `uint64`.
abbrev pub AreNumbered : List Transaction → Type 0
AreNumbered [] = Unit
AreNumbered (tx ∷ txs) = (tx.nonce_value < 2 ^ 64) × AreNumbered txs

after_add-Sound :
    (c : Chain) (tx : Transaction) (a : Bytes) (r : Result Bool × TxPool)
    → Sound r.1 a []
    → Sound (after_add c tx r).1 a []
after_add-Sound c tx a (err e, pool) s = s
after_add-Sound c tx a (ok b, pool) s = promote_executables-Sound c (some (tx.from ∷ [])) a pool s

-- A transaction that is handed to the pool, whether it is taken or refused, leaves the pool consistent.
pub add_tx-Sound :
    (c : Chain) (tx : Transaction) (local : Bool) (a : Bytes) (pool : TxPool)
    → Sound pool a []
    → tx.nonce_value < 2 ^ 64
    → Sound (Reset.add_tx c tx local pool).1 a []
unfolding Reset.add_tx
add_tx-Sound c tx local a pool s w =
    after_add-Sound c tx a (add c tx local pool) (add-Sound c tx local pool a s w)

add_batch-Sound :
    (c : Chain) (txs : List Transaction) (local : Bool) (d : Dict (Unit {0})) (a : Bytes)
    (pool : TxPool)
    → Sound pool a []
    → AreNumbered txs
    → Sound (add_batch c txs local d pool).pool a []
unfolding add_batch
add_batch-Sound c [] local d a pool s w = s
add_batch-Sound c (tx ∷ txs) local d a pool s w =
    let r = add c tx local pool in
    add_batch-Sound c txs local (batch_added tx r.0 d).1 a r.1 (add-Sound c tx local pool a s w.0)
      w.1

promote_dirty-Sound :
    (c : Chain) (d : Dict (Unit {0})) (a : Bytes) (pool : TxPool)
    → Sound pool a []
    → Sound (promote_dirty c d pool) a []
promote_dirty-Sound c [] a pool s = s
promote_dirty-Sound c (e ∷ d) a pool s =
    promote_executables-Sound c (some (Accounts.keys_of (e ∷ d))) a pool s

pub add_txs_locked-Sound :
    (c : Chain) (txs : List Transaction) (local : Bool) (a : Bytes) (pool : TxPool)
    → Sound pool a []
    → AreNumbered txs
    → Sound (add_txs_locked c txs local pool).0 a []
unfolding add_txs_locked
add_txs_locked-Sound c txs local a pool s w =
    let b = add_batch c txs local [] pool in
    promote_dirty-Sound c b.dirty a b.pool (add_batch-Sound c txs local [] a pool s w)

-- The pool, where there is one, is consistent.
abbrev pub SoundIf : Bytes → Option TxPool → Type 0
SoundIf a none = Unit
SoundIf a (some pool) = Sound pool a []

pub finish_reset-Sound :
    (c : Chain) (a : Bytes) (o : Option Accounts.PendingCache) (pool : TxPool)
    → Sound pool a []
    → SoundIf a (finish_reset c o pool)
finish_reset-Sound c a none pool s = tt
finish_reset-Sound c a (some pc) pool s =
    promote_executables-Sound c none a (record pool { pending_state = pc }) s

reset-Sound :
    (c : Chain) (txs : List Transaction) (a : Bytes) (pool : TxPool)
    → Sound pool a []
    → AreNumbered txs
    → SoundIf a (reset c txs pool)
unfolding reset update_nonces
reset-Sound c txs a pool s w =
    let p1 = (add_txs_locked c txs false pool).0 in
    let p2 = demote_unexecutables c p1 in
    finish_reset-Sound c a (next_nonces (flatten_lists p2.pending).1 p2.pending_state)
      (record p2 { pending = (flatten_lists p2.pending).0 })
      (flattened-Sound a p2
        (demote_unexecutables-Sound c a p1 (add_txs_locked-Sound c txs false a pool s w)))

drop_old-Sound :
    (c : Chain) (b : Bool) (addr a : Bytes) (pool : TxPool)
    → Sound pool a []
    → Sound (drop_old c b addr pool) a []
drop_old-Sound c false addr a pool s = s
drop_old-Sound c true addr a pool s =
    let f = flat_queue addr (lookup addr pool.queue) pool in
    remove_each-Sound c a f.1 f.0 (flat-Sound addr a pool s)

evict_account-Sound :
    (c : Chain) (addr a : Bytes) (pool : TxPool)
    → Sound pool a []
    → Sound (evict_account c addr pool) a []
unfolding evict_account
evict_account-Sound c addr a pool s =
    if_pool (contains addr pool.locals) a pool (drop_old c (is_old c addr pool) addr pool) s
      (drop_old-Sound c (is_old c addr pool) addr a pool s)

evict_accounts-Sound :
    (c : Chain) (addrs : List Bytes) (a : Bytes) (pool : TxPool)
    → Sound pool a []
    → Sound (evict_accounts c addrs pool) a []
unfolding evict_accounts
evict_accounts-Sound c [] a pool s = s
evict_accounts-Sound c (addr ∷ addrs) a pool s =
    evict_accounts-Sound c addrs a (evict_account c addr pool) (evict_account-Sound c addr a pool s)

abbrev pub EventNumbered : Event → Type 0
EventNumbered (recv_blk_txs none) = Unit
EventNumbered (recv_blk_txs (some txs)) = AreNumbered txs
EventNumbered evict_tick = Unit

-- The new pool of a transaction from outside or from an event.
pub loop_step-Sound :
    (c : Chain) (e : Event) (a : Bytes) (pool : TxPool)
    → Sound pool a []
    → EventNumbered e
    → SoundIf a (loop_step c e pool)
unfolding loop_step evict
loop_step-Sound c (recv_blk_txs none) a pool s w = s
loop_step-Sound c (recv_blk_txs (some txs)) a pool s w = reset-Sound c txs a pool s w
loop_step-Sound c evict_tick a pool s w =
    evict_accounts-Sound c (Accounts.keys_of pool.queue) a pool s
