-- ===== src/Txpool/Pool/Consistent/Demotion.antt =====
-- txpool/tx_pool.go: demoteUnexecutables keeps the pool consistent, and leaves no empty list.
use hnb_blockchain.Prelude.{
  ◌≡◌, refl, ap, ◌∙◌, Bool, true, false, Option, none, some, List, [], ◌∷◌,
}
use hnb_blockchain.Prelude.Bytes.{Bytes}
use hnb_blockchain.Prelude.Assoc.{lookup, insert}
use hnb_blockchain.Ledger.Types.{Transaction}
use hnb_blockchain.Txpool.TxList.{TxList}
use hnb_blockchain.Txpool.TxList.Laws.{Held}
use hnb_blockchain.Txpool.Accounts.{TxLookup, get_tx, add_tx, remove_tx}
use hnb_blockchain.Txpool.TxList
use hnb_blockchain.Txpool.TxList.{new_tx_list}
use hnb_blockchain.Txpool.Accounts.{present, set_nonce}
use hnb_blockchain.Txpool.Pool.{TxPool, Chain, list_or_new, enqueue_tx, enqueued}
use hnb_blockchain.Txpool.Pool.Moving.{enqueue_all}
use hnb_blockchain.Txpool.Accounts.{get_nonce, contains}
use hnb_blockchain.Txpool.Accounts
use hnb_blockchain.Txpool.Pool.Moving.{
  set_pending, clear_pending, demote_gap, has_gap, drop_executed, demote_list, demote_found,
  demote_accounts, demote_unexecutables,
}
use hnb_blockchain.Txpool.Pool.Consistent.Taking.{cleared_pending, taken_from_pending}
use hnb_blockchain.Txpool.Pool.Consistent.Placing.{Sound, forget_all-Sound, enqueue_all-Sound}
use hnb_blockchain.Txpool.Pool.Consistent.Parts.{
  Taken, forward-taken, cap-taken, lookup_inserted, emptied, named, forget_all-pending,
}

-- The pending list of `addr` is `l`.
pub record Listed (addr : Bytes) (l : TxList) (pool : TxPool) : Type 0 where
  pub sound : Sound pool addr []
  pub listed : lookup addr pool.pending ≡ some l

pub pending_taken :
    {addr : Bytes} {l : TxList} {pool : TxPool} {txs r : List Transaction} (l' : TxList)
    → Listed addr l pool
    → Held l txs
    → l.strict ≡ true
    → Taken l l' r txs
    → Sound (set_pending addr l' pool) addr r
pending_taken {addr} {l} {pool} {txs} {r} l' q h b t =
    taken_from_pending pool.pending pool.queue pool.all addr l l' txs t.kept r q.sound h t.splits
      t.held q.listed (t.mode ∙ b)

enqueued-pending :
    (b : Bool) (old : Option Transaction) (hash : Bytes) (tx : Transaction) (pool : TxPool)
    → (enqueued b old hash tx pool).1.pending ≡ pool.pending
enqueued-pending false old hash tx pool = refl
enqueued-pending true old hash tx pool = refl

enqueue_tx-pending :
    (hash : Bytes) (tx : Transaction) (pool : TxPool)
    → (enqueue_tx hash tx pool).1.pending ≡ pool.pending
unfolding enqueue_tx
enqueue_tx-pending hash tx pool =
    let r = TxList.add tx (list_or_new false (lookup tx.from pool.queue)) in
    enqueued-pending r.1 r.2 hash tx (record pool { queue = insert tx.from r.0 pool.queue })

pub enqueue_all-pending :
    (r : List Transaction) (pool : TxPool) → (enqueue_all r pool).pending ≡ pool.pending
unfolding enqueue_all
enqueue_all-pending [] pool = refl
enqueue_all-pending (tx ∷ r) pool =
    enqueue_all-pending r (enqueue_tx tx.txid tx pool).1 ∙ enqueue_tx-pending tx.txid tx pool

pub drop_executed-Listed :
    (c : Chain) (addr : Bytes) (l : TxList) (pool : TxPool)
    → Listed addr l pool
    → Listed addr (drop_executed c addr l pool).0 (drop_executed c addr l pool).1
unfolding drop_executed
drop_executed-Listed c addr l pool q =
    let h = q.sound.pending_held.each addr l q.listed in
    let f = TxList.forward (c.ledger_nonce addr) l in
    let p = set_pending addr f.0 pool in
    record {
      sound =
          forget_all-Sound f.1 p addr
            (pending_taken f.0 q h.1 h.2 (forward-taken (c.ledger_nonce addr) h.1));
      listed = ap (lookup addr) (forget_all-pending f.1 p) ∙ lookup_inserted addr f.0 pool.pending;
    }

pub demote_gap-Listed :
    (addr : Bytes) (b : Bool) (l : TxList) (pool : TxPool)
    → Listed addr l pool
    → Listed addr (demote_gap addr b l pool).0 (demote_gap addr b l pool).1
demote_gap-Listed addr false l pool q = q
demote_gap-Listed addr true l pool q =
    let h = q.sound.pending_held.each addr l q.listed in
    let f = TxList.cap 0 l in
    let p = set_pending addr f.0 pool in
    record {
      sound = enqueue_all-Sound addr f.1 p (pending_taken f.0 q h.1 h.2 (cap-taken 0 h.1));
      listed = ap (lookup addr) (enqueue_all-pending f.1 p) ∙ lookup_inserted addr f.0 pool.pending;
    }

clear_pending-Sound :
    (addr : Bytes) (l : TxList) (pool : TxPool)
    → Listed addr l pool
    → (b : Bool) → TxList.empty l ≡ b
    → Sound (clear_pending addr b pool) addr []
clear_pending-Sound addr l pool q false e = q.sound
clear_pending-Sound addr l pool q true e =
    cleared_pending pool.pending pool.queue pool.all addr [] q.sound
      (emptied addr pool.pending q.listed (q.sound.pending_held.each addr l q.listed).1 e)

demote_list-Sound :
    (c : Chain) (addr : Bytes) (l : TxList) (pool : TxPool)
    → Listed addr l pool
    → Sound (demote_list c addr l pool) addr []
unfolding demote_list
demote_list-Sound c addr l pool q =
    let s1 = drop_executed c addr l pool in
    let b = has_gap (c.ledger_nonce addr) s1.0 in
    let s2 = demote_gap addr b s1.0 s1.1 in
    clear_pending-Sound addr s2.0 s2.1
      (demote_gap-Listed addr b s1.0 s1.1 (drop_executed-Listed c addr l pool q))
      (TxList.empty s2.0) refl

pub demote_found-Sound :
    (c : Chain) (addr : Bytes) (pool : TxPool)
    → Sound pool addr []
    → (o : Option TxList) → lookup addr pool.pending ≡ o
    → Sound (demote_found c addr o pool) addr []
demote_found-Sound c addr pool s none e = s
demote_found-Sound c addr pool s (some l) e =
    demote_list-Sound c addr l pool (record { sound = s; listed = e })

demote_accounts-Sound :
    (c : Chain) (addrs : List Bytes) (a : Bytes) (pool : TxPool)
    → Sound pool a []
    → Sound (demote_accounts c addrs pool) a []
unfolding demote_accounts
demote_accounts-Sound c [] a pool s = s
demote_accounts-Sound c (addr ∷ addrs) a pool s =
    let p = demote_found c addr (lookup addr pool.pending) pool in
    demote_accounts-Sound c addrs a p (
      named addr a p
        (demote_found-Sound c addr pool (named a addr pool s) (lookup addr pool.pending) refl))

pub demote_unexecutables-Sound :
    (c : Chain) (a : Bytes) (pool : TxPool)
    → Sound pool a []
    → Sound (demote_unexecutables c pool) a []
unfolding demote_unexecutables
demote_unexecutables-Sound c a pool s =
    demote_accounts-Sound c (Accounts.keys_of pool.pending) a pool s
