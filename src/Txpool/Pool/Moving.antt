-- ===== src/Txpool/Pool/Moving.antt =====
-- txpool/tx_pool.go: how transactions move between the queue and the pending ones, and leave the pool.
use hnb_blockchain.Prelude.{
  ℕ, ◌+◌, ◌%◌, ◌^◌, ltb, if◌then◌else◌, not, Bool, true, false, Option, none, some, List, [], ◌∷◌,
}
use hnb_blockchain.Prelude.Bytes.{Bytes}
use hnb_blockchain.Prelude.Assoc.{lookup, insert, erase}
use hnb_blockchain.Ledger.Types.{Transaction}
use hnb_blockchain.Txpool.SortedMap
use hnb_blockchain.Txpool.TxList
use hnb_blockchain.Txpool.TxList.{TxList}
use hnb_blockchain.Txpool.Accounts
use hnb_blockchain.Txpool.Accounts.{set_nonce, get_nonce, contains, present, get_tx}
use hnb_blockchain.Txpool.Pool.{Chain, TxPool, list_or_new, forget, know, enqueue_tx}

-- `for _, tx := range txs { pool.all.Remove(tx.Hash()) }`
unfoldable pub forget_all : List Transaction → TxPool → TxPool
forget_all [] pool = pool
forget_all (tx ∷ txs) pool =
    forget_all txs (record pool { all = Accounts.remove_tx tx.txid pool.all })

abbrev pub promoted :
    Bool → Option Transaction → Chain → Bytes → Bytes → Transaction → TxPool → TxPool × Bool
promoted false old c addr hash tx pool =
    (record pool { all = Accounts.remove_tx hash pool.all }, false)
promoted true old c addr hash tx pool = (
  record pool {
    all = know hash tx (forget old pool.all);
    beats = insert addr c.now pool.beats;
    pending_state = set_nonce addr ((tx.nonce_value + 1) % 2 ^ 64) pool.pending_state;
  },
  true,
)

unfoldable pub promote_tx : Chain → Bytes → Bytes → Transaction → TxPool → TxPool × Bool
unfolding know
promote_tx c addr hash tx pool =
    let (l, inserted, old) = TxList.add tx (list_or_new true (lookup addr pool.pending)) in
    promoted inserted old c addr hash tx (record pool { pending = insert addr l pool.pending })

unfoldable pub promote_all : Chain → Bytes → List Transaction → TxPool → TxPool
unfolding promote_tx
promote_all c addr [] pool = pool
promote_all c addr (tx ∷ txs) pool = promote_all c addr txs (promote_tx c addr tx.txid tx pool).0

-- `pool.enqueueTx(tx.Hash(), tx)` for each, whatever it returns.
unfoldable pub enqueue_all : List Transaction → TxPool → TxPool
unfolding enqueue_tx
enqueue_all [] pool = pool
enqueue_all (tx ∷ txs) pool = enqueue_all txs (enqueue_tx tx.txid tx pool).1

-- The entry of an account, or no entry where its list is empty.
abbrev pub queue_entry : Bool → Bytes → TxList → TxPool → TxPool
queue_entry false addr l pool = record pool { queue = insert addr l pool.queue }
queue_entry true addr l pool = record pool { queue = erase addr pool.queue }

abbrev pub store_queue : Bytes → TxList → TxPool → TxPool
store_queue addr l pool = queue_entry (TxList.empty l) addr l pool

abbrev pub pending_entry : Bool → Bytes → TxList → TxPool → TxPool
pending_entry false addr l pool = record pool { pending = insert addr l pool.pending }
pending_entry true addr l pool = record pool {
  pending = erase addr pool.pending;
  beats = erase addr pool.beats;
}

abbrev pub store_pending : Bytes → TxList → TxPool → TxPool
store_pending addr l pool = pending_entry (TxList.empty l) addr l pool

-- The account's next nonce is put back to the one of a dropped transaction.
unfoldable pub lower_nonce : Chain → Bytes → ℕ → TxPool → TxPool
lower_nonce c addr nonce pool =
    if ltb nonce (get_nonce c.ledger_nonce addr pool.pending_state)
    then record pool { pending_state = set_nonce addr nonce pool.pending_state }
    else pool

abbrev pub remove_queued : Transaction → Option TxList → TxPool → TxPool
remove_queued tx none pool = pool
remove_queued tx (some l) pool = store_queue tx.from (TxList.remove tx l).0 pool

-- After the removal from the pending list: what it invalidates is postponed.
abbrev pub removed_pending : Chain → Transaction → TxList.Removed → TxPool → TxPool
removed_pending c tx (l, false, invalids) pool = remove_queued tx (lookup tx.from pool.queue) pool
removed_pending c tx (l, true, invalids) pool =
    lower_nonce c tx.from tx.nonce_value (enqueue_all invalids (store_pending tx.from l pool))

abbrev pub remove_from : Chain → Transaction → Option TxList → TxPool → TxPool
remove_from c tx none pool = remove_queued tx (lookup tx.from pool.queue) pool
remove_from c tx (some l) pool = removed_pending c tx (TxList.remove tx l) pool

unfoldable pub remove_known : Chain → Bytes → Transaction → TxPool → TxPool
unfolding enqueue_all lower_nonce
remove_known c hash tx pool =
    remove_from c tx (lookup tx.from pool.pending)
      (record pool { all = Accounts.remove_tx hash pool.all })

abbrev pub remove_found : Chain → Bytes → Option Transaction → TxPool → TxPool
remove_found c hash none pool = pool
remove_found c hash (some tx) pool = remove_known c hash tx pool

unfoldable pub remove_tx : Chain → Bytes → TxPool → TxPool
unfolding remove_known
remove_tx c hash pool = remove_found c hash (get_tx hash pool.all) pool

unfoldable pub remove_each : Chain → List Transaction → TxPool → TxPool
unfolding remove_tx
remove_each c [] pool = pool
remove_each c (tx ∷ txs) pool = remove_each c txs (remove_tx c tx.txid pool)

-- Unless the account is local, its queue is cut to the limit.
abbrev pub cut_queue : Bool → ℕ → TxList → TxList × List Transaction
cut_queue true limit l = (l, [])
cut_queue false limit l = TxList.cap limit l

abbrev pub set_queue : Bytes → TxList → TxPool → TxPool
set_queue addr l pool = record pool { queue = insert addr l pool.queue }

abbrev pub set_pending : Bytes → TxList → TxPool → TxPool
set_pending addr l pool = record pool { pending = insert addr l pool.pending }

abbrev pub clear_queue : Bytes → Bool → TxPool → TxPool
clear_queue addr false pool = pool
clear_queue addr true pool = record pool { queue = erase addr pool.queue }

abbrev pub clear_pending : Bytes → Bool → TxPool → TxPool
clear_pending addr false pool = pool
clear_pending addr true pool = record pool {
  pending = erase addr pool.pending;
  beats = erase addr pool.beats;
}

-- The three passes of `promoteExecutables` over the queue of one account, whose list is changed in
-- place.
unfoldable pub drop_stale : Chain → Bytes → TxList → TxPool → TxList × TxPool
unfolding forget_all
drop_stale c addr l pool =
    let (l', old) = TxList.forward (c.ledger_nonce addr) l in
    (l', forget_all old (set_queue addr l' pool))

unfoldable pub promote_ready : Chain → Bytes → TxList → TxPool → TxList × TxPool
unfolding promote_all
promote_ready c addr l pool =
    let (l', txs) = TxList.ready (get_nonce c.ledger_nonce addr pool.pending_state) l in
    (l', promote_all c addr txs (set_queue addr l' pool))

unfoldable pub drop_over : Bytes → TxList → TxPool → TxList × TxPool
unfolding forget_all
drop_over addr l pool =
    let (l', drops) = cut_queue (contains addr pool.locals) pool.config.account_queue l in
    (l', forget_all drops (set_queue addr l' pool))

unfoldable pub promote_list : Chain → Bytes → TxList → TxPool → TxPool
unfolding drop_stale promote_ready drop_over
promote_list c addr l pool =
    let (l1, p1) = drop_stale c addr l pool in
    let (l2, p2) = promote_ready c addr l1 p1 in
    let (l3, p3) = drop_over addr l2 p2 in clear_queue addr (TxList.empty l3) p3

abbrev pub promote_found : Chain → Bytes → Option TxList → TxPool → TxPool
promote_found c addr none pool = pool
promote_found c addr (some l) pool = promote_list c addr l pool

unfoldable pub promote_account : Chain → Bytes → TxPool → TxPool
unfolding promote_list
promote_account c addr pool = promote_found c addr (lookup addr pool.queue) pool

unfoldable pub promote_accounts : Chain → List Bytes → TxPool → TxPool
unfolding promote_account
promote_accounts c [] pool = pool
promote_accounts c (addr ∷ addrs) pool = promote_accounts c addrs (promote_account c addr pool)

-- Where the least nonce is missing, the whole list goes back to the queue.
abbrev pub demote_gap : Bytes → Bool → TxList → TxPool → TxList × TxPool
demote_gap addr false l pool = (l, pool)
demote_gap addr true l pool =
    let (l', txs) = TxList.cap 0 l in (l', enqueue_all txs (set_pending addr l' pool))

abbrev pub has_gap : ℕ → TxList → Bool
has_gap nonce l = if TxList.empty l then false else not (present (SortedMap.get nonce l.txs))

unfoldable pub drop_executed : Chain → Bytes → TxList → TxPool → TxList × TxPool
unfolding forget_all
drop_executed c addr l pool =
    let (l', old) = TxList.forward (c.ledger_nonce addr) l in
    (l', forget_all old (set_pending addr l' pool))

-- One account of `demoteUnexecutables`, with its pending list.
unfoldable pub demote_list : Chain → Bytes → TxList → TxPool → TxPool
unfolding drop_executed enqueue_all
demote_list c addr l pool =
    let (l1, p1) = drop_executed c addr l pool in
    let (l2, p2) = demote_gap addr (has_gap (c.ledger_nonce addr) l1) l1 p1 in
    clear_pending addr (TxList.empty l2) p2

abbrev pub demote_found : Chain → Bytes → Option TxList → TxPool → TxPool
demote_found c addr none pool = pool
demote_found c addr (some l) pool = demote_list c addr l pool

unfoldable pub demote_accounts : Chain → List Bytes → TxPool → TxPool
unfolding demote_list
demote_accounts c [] pool = pool
demote_accounts c (addr ∷ addrs) pool =
    demote_accounts c addrs (demote_found c addr (lookup addr pool.pending) pool)

unfoldable pub demote_unexecutables : Chain → TxPool → TxPool
unfolding demote_accounts
demote_unexecutables c pool = demote_accounts c (Accounts.keys_of pool.pending) pool
