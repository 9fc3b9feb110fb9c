-- ===== src/Txpool/Pool/Queries.antt =====
-- txpool/tx_pool.go: what the pool answers.
use hnb_blockchain.Prelude.{ℕ, if◌then◌else◌, Bool, false, Option, none, some, List, [], ◌∷◌}
use hnb_blockchain.Prelude.Bytes.{Bytes}
use hnb_blockchain.Prelude.Assoc.{Dict, lookup}
use hnb_blockchain.Ledger.Types.{Transaction}
use hnb_blockchain.Txpool.SortedMap
use hnb_blockchain.Txpool.TxList.{TxList}
use hnb_blockchain.Txpool.Accounts.{present, get_tx}
use hnb_blockchain.Txpool.Pool.{TxPool}
use hnb_blockchain.Txpool.Pool.Limits.{total}
use hnb_blockchain.Txpool.Pool.Reset.{flatten_lists}

-- Pending and queued transactions, in numbers.
unfoldable pub stats : TxPool → ℕ × ℕ
unfolding total
stats pool = (total pool.pending, total pool.queue)

unfoldable pub pending : TxPool → TxPool × Dict (List Transaction)
unfolding flatten_lists
pending pool = let (m, txs) = flatten_lists pool.pending in (record pool { pending = m }, txs)

unfoldable pub content : TxPool → TxPool × Dict (List Transaction) × Dict (List Transaction)
unfolding flatten_lists
content pool =
    let (m, txs) = flatten_lists pool.pending in
    let (q, queued) = flatten_lists pool.queue in
    (record pool { pending = m; queue = q }, txs, queued)

pub data TxStatus : Type 0 where
  status_unknown status_queued status_pending status_included : TxStatus

abbrev pub is_pending : Transaction → Option TxList → Bool
is_pending tx none = false
is_pending tx (some l) = present (SortedMap.get tx.nonce_value l.txs)

abbrev pub status_of : TxPool → Option Transaction → TxStatus
status_of pool none = status_unknown
status_of pool (some tx) =
    if is_pending tx (lookup tx.from pool.pending) then status_pending else status_queued

unfoldable pub status : List Bytes → TxPool → List TxStatus
status [] pool = []
status (hash ∷ hashes) pool = status_of pool (get_tx hash pool.all) ∷ status hashes pool
