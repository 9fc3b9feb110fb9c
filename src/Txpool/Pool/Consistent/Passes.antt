-- ===== src/Txpool/Pool/Consistent/Passes.antt =====
-- txpool/tx_pool.go: promoteExecutables keeps the pool consistent.
use hnb_blockchain.Prelude.{
  ◌≡◌, refl, ap, ◌∙◌, Bool, true, false, Option, none, some, List, [], ◌∷◌,
}
use hnb_blockchain.Prelude.Bytes.{Bytes}
use hnb_blockchain.Prelude.Assoc.{lookup, insert}
use hnb_blockchain.Ledger.Types.{Transaction}
use hnb_blockchain.Txpool.TxList.{TxList}
use hnb_blockchain.Txpool.TxList.Laws.{Held}
use hnb_blockchain.Txpool.TxList
use hnb_blockchain.Txpool.TxList.{new_tx_list}
use hnb_blockchain.Txpool.Pool.{TxPool, Chain, list_or_new}
use hnb_blockchain.Txpool.Pool.Moving.{forget_all, promote_tx, promoted, promote_all}
use hnb_blockchain.Txpool.Accounts.{get_nonce, contains}
use hnb_blockchain.Txpool.Pool.Moving.{
  set_queue, clear_queue, cut_queue, drop_stale, promote_ready, drop_over, promote_list,
  promote_found, promote_account, promote_accounts,
}
use hnb_blockchain.Txpool.Pool.Consistent.Taking.{cleared_queue, taken_from_queue}
use hnb_blockchain.Txpool.Pool.Consistent.Placing.{Sound, forget_all-Sound, promote_all-Sound}
use hnb_blockchain.Txpool.Pool.Consistent.Parts.{
  Taken, forward-taken, ready-taken, cut-taken, lookup_inserted, emptied, named, forget_all-queue,
}

-- The queue of `addr` is the list `l`.
pub record Queued (addr : Bytes) (l : TxList) (pool : TxPool) : Type 0 where
  pub sound : Sound pool addr []
  pub listed : lookup addr pool.queue ≡ some l

pub queue_taken :
    {addr : Bytes} {l : TxList} {pool : TxPool} {txs r : List Transaction} (l' : TxList)
    → Queued addr l pool
    → Held l txs
    → l.strict ≡ false
    → Taken l l' r txs
    → Sound (set_queue addr l' pool) addr r
queue_taken {addr} {l} {pool} {txs} {r} l' q h b t =
    taken_from_queue pool.pending pool.queue pool.all addr l l' txs t.kept r q.sound h t.splits
      t.held q.listed (t.mode ∙ b)

promoted-queue :
    (b : Bool) (old : Option Transaction) (c : Chain) (addr hash : Bytes) (tx : Transaction)
    (pool : TxPool)
    → (promoted b old c addr hash tx pool).0.queue ≡ pool.queue
promoted-queue false old c addr hash tx pool = refl
promoted-queue true old c addr hash tx pool = refl

promote_tx-queue :
    (c : Chain) (addr hash : Bytes) (tx : Transaction) (pool : TxPool)
    → (promote_tx c addr hash tx pool).0.queue ≡ pool.queue
unfolding promote_tx
promote_tx-queue c addr hash tx pool =
    let r = TxList.add tx (list_or_new true (lookup addr pool.pending)) in
    promoted-queue r.1 r.2 c addr hash tx (record pool { pending = insert addr r.0 pool.pending })

promote_all-queue :
    (c : Chain) (addr : Bytes) (r : List Transaction) (pool : TxPool)
    → (promote_all c addr r pool).queue ≡ pool.queue
unfolding promote_all
promote_all-queue c addr [] pool = refl
promote_all-queue c addr (tx ∷ r) pool =
    promote_all-queue c addr r (promote_tx c addr tx.txid tx pool).0
    ∙ promote_tx-queue c addr tx.txid tx pool

forgotten-Queued :
    (addr : Bytes) (l' : TxList) (r : List Transaction) (pool : TxPool)
    → Sound (set_queue addr l' pool) addr r
    → Queued addr l' (forget_all r (set_queue addr l' pool))
forgotten-Queued addr l' r pool s = record {
  sound = forget_all-Sound r (set_queue addr l' pool) addr s;
  listed =
      ap (lookup addr) (forget_all-queue r (set_queue addr l' pool))
      ∙ lookup_inserted addr l' pool.queue;
}

drop_stale-Queued :
    (c : Chain) (addr : Bytes) (l : TxList) (pool : TxPool)
    → Queued addr l pool
    → Queued addr (drop_stale c addr l pool).0 (drop_stale c addr l pool).1
unfolding drop_stale
drop_stale-Queued c addr l pool q =
    let h = q.sound.queue_held.each addr l q.listed in
    let f = TxList.forward (c.ledger_nonce addr) l in
    forgotten-Queued addr f.0 f.1 pool
      (queue_taken f.0 q h.1 h.2 (forward-taken (c.ledger_nonce addr) h.1))

drop_over-Queued :
    (addr : Bytes) (l : TxList) (pool : TxPool)
    → Queued addr l pool
    → Queued addr (drop_over addr l pool).0 (drop_over addr l pool).1
unfolding drop_over
drop_over-Queued addr l pool q =
    let h = q.sound.queue_held.each addr l q.listed in
    let f = cut_queue (contains addr pool.locals) pool.config.account_queue l in
    forgotten-Queued addr f.0 f.1 pool (
      queue_taken f.0 q h.1 h.2
        (cut-taken (contains addr pool.locals) pool.config.account_queue h.1))

promote_ready-Queued :
    (c : Chain) (addr : Bytes) (l : TxList) (pool : TxPool)
    → Queued addr l pool
    → Queued addr (promote_ready c addr l pool).0 (promote_ready c addr l pool).1
unfolding promote_ready
promote_ready-Queued c addr l pool q =
    let h = q.sound.queue_held.each addr l q.listed in
    let n = get_nonce c.ledger_nonce addr pool.pending_state in
    let f = TxList.ready n l in
    let p = set_queue addr f.0 pool in
    record {
      sound = promote_all-Sound c addr f.1 p (queue_taken f.0 q h.1 h.2 (ready-taken n h.1));
      listed =
          ap (lookup addr) (promote_all-queue c addr f.1 p) ∙ lookup_inserted addr f.0 pool.queue;
    }

clear_queue-Sound :
    (addr : Bytes) (l : TxList) (pool : TxPool)
    → Queued addr l pool
    → (b : Bool) → TxList.empty l ≡ b
    → Sound (clear_queue addr b pool) addr []
clear_queue-Sound addr l pool q false e = q.sound
clear_queue-Sound addr l pool q true e =
    cleared_queue pool.pending pool.queue pool.all addr [] q.sound
      (emptied addr pool.queue q.listed (q.sound.queue_held.each addr l q.listed).1 e)

promote_list-Sound :
    (c : Chain) (addr : Bytes) (l : TxList) (pool : TxPool)
    → Queued addr l pool
    → Sound (promote_list c addr l pool) addr []
unfolding promote_list
promote_list-Sound c addr l pool q =
    let s1 = drop_stale c addr l pool in
    let s2 = promote_ready c addr s1.0 s1.1 in
    let s3 = drop_over addr s2.0 s2.1 in
    let q1 = drop_stale-Queued c addr l pool q in
    let q2 = promote_ready-Queued c addr s1.0 s1.1 q1 in
    clear_queue-Sound addr s3.0 s3.1 (drop_over-Queued addr s2.0 s2.1 q2) (TxList.empty s3.0) refl

promote_found-Sound :
    (c : Chain) (addr : Bytes) (pool : TxPool)
    → Sound pool addr []
    → (o : Option TxList) → lookup addr pool.queue ≡ o
    → Sound (promote_found c addr o pool) addr []
promote_found-Sound c addr pool s none e = s
promote_found-Sound c addr pool s (some l) e =
    promote_list-Sound c addr l pool (record { sound = s; listed = e })

pub promote_accounts-Sound :
    (c : Chain) (addrs : List Bytes) (a : Bytes) (pool : TxPool)
    → Sound pool a []
    → Sound (promote_accounts c addrs pool) a []
unfolding promote_accounts promote_account
promote_accounts-Sound c [] a pool s = s
promote_accounts-Sound c (addr ∷ addrs) a pool s =
    promote_accounts-Sound c addrs a (promote_found c addr (lookup addr pool.queue) pool) (
      named addr a (promote_found c addr (lookup addr pool.queue) pool)
        (promote_found-Sound c addr pool (named a addr pool s) (lookup addr pool.queue) refl))
