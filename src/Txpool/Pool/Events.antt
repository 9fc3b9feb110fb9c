-- ===== src/Txpool/Pool/Events.antt =====
-- txpool/tx_pool.go: the events of the pool's loop. txpoolServer.go: the calls of the other parts.
use hnb_blockchain.Prelude.{
  ℕ, ◌+◌, ◌++◌, length, ◌==◌, ltb, if◌then◌else◌, Bool, true, false, Option, none, some, List, [],
  ◌∷◌,
}
use hnb_blockchain.Prelude.Bytes.{Bytes}
use hnb_blockchain.Prelude.Assoc.{Dict, lookup}
use hnb_blockchain.Prelude.Result.{Result, err, Error}
use hnb_blockchain.Ledger.Types.{Transaction}
use hnb_blockchain.Txpool.Accounts.{contains, nonce_or, keys_of, get_nonce}
use hnb_blockchain.Txpool.Pool.{Chain, TxPool}
use hnb_blockchain.Txpool.Pool.Moving.{remove_each}
use hnb_blockchain.Txpool.Pool.Limits.{flat_queue}
use hnb_blockchain.Txpool.Pool.Reset.{reset, add_local, add_remote}
use hnb_blockchain.Txpool.Pool.Queries.{pending}

-- `time.Since(pool.beats[addr]) > pool.config.Lifetime`; a missing heartbeat is the time 0.
abbrev pub is_old : Chain → Bytes → TxPool → Bool
is_old c addr pool = ltb (nonce_or 0 (lookup addr pool.beats) + pool.config.lifetime) c.now

abbrev pub drop_old : Chain → Bool → Bytes → TxPool → TxPool
drop_old c false addr pool = pool
drop_old c true addr pool =
    let (p, txs) = flat_queue addr (lookup addr pool.queue) pool in remove_each c txs p

unfoldable pub evict_account : Chain → Bytes → TxPool → TxPool
evict_account c addr pool =
    if contains addr pool.locals then pool else drop_old c (is_old c addr pool) addr pool

unfoldable pub evict_accounts : Chain → List Bytes → TxPool → TxPool
unfolding evict_account
evict_accounts c [] pool = pool
evict_accounts c (addr ∷ addrs) pool = evict_accounts c addrs (evict_account c addr pool)

unfoldable pub evict : Chain → TxPool → TxPool
unfolding evict_accounts
evict c pool = evict_accounts c (keys_of pool.queue) pool

-- The events that change the pool: a block's transactions, which may be nil, and the tick of the
-- eviction.
pub data Event : Type 0 where
  recv_blk_txs : Option (List Transaction) → Event
  evict_tick : Event

-- `none` where the source panics.
unfoldable pub loop_step : Chain → Event → TxPool → Option TxPool
unfolding reset evict
loop_step c (recv_blk_txs none) pool = some pool
loop_step c (recv_blk_txs (some txs)) pool = reset c txs pool
loop_step c evict_tick pool = some (evict c pool)

abbrev pub received : Chain → Bool → Option Transaction → TxPool → Result (Unit {0}) × TxPool
received c local none pool = (err Error.bad_message, pool)
received c true (some tx) pool = add_local c tx pool
received c false (some tx) pool = add_remote c tx pool

-- The result, the pool, and whether the message goes out to the other nodes. `decode` is the decoding
-- of JSON, and a sender of 0 is this node.
unfoldable pub recv_tx :
    (Bytes → Option Transaction)
    → Chain
    → Option Bytes
    → ℕ
    → TxPool
    → (Result (Unit {0}) × TxPool) × Bool
unfolding add_local add_remote
recv_tx decode c none msg_sender pool = ((err Error.msg_nil, pool), false)
recv_tx decode c (some msg) msg_sender pool = (
  received c (msg_sender == 0) (decode msg) pool,
  elim (decode msg) [ none ↦ false | some tx ↦ msg_sender == 0 ],
)

-- The transactions up to the count, after `n` others. A count of 0 is never met, like a negative one.
unfoldable pub collect : ℕ → List Transaction → ℕ → List Transaction
collect limit [] n = []
collect limit (tx ∷ txs) n =
    tx ∷ (let rest = collect limit txs (n + 1) in if n + 1 == limit then [] else rest)

abbrev pub all_txs : Dict (List Transaction) → List Transaction
all_txs [] = []
all_txs ((addr, txs) ∷ m) = txs ++ all_txs m

unfoldable pub get_txs_from_tx_pool : ℕ → TxPool → TxPool × List Transaction
unfolding collect pending
get_txs_from_tx_pool limit pool = let (p, txs) = pending pool in (p, collect limit (all_txs txs) 0)

-- Whether no account has pending transactions.
unfoldable pub is_txs_len_zero : TxPool → TxPool × Bool
unfolding pending
is_txs_len_zero pool = let (p, txs) = pending pool in (p, length txs == 0)

unfoldable pub get_pending_nonce : Chain → Bytes → TxPool → ℕ
get_pending_nonce c addr pool = get_nonce c.ledger_nonce addr pool.pending_state
