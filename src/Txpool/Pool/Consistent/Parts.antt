-- ===== src/Txpool/Pool/Consistent/Parts.antt =====
-- txpool/tx_pool.go: what the operations take out of a list.
use hnb_blockchain.Prelude.{
  ℕ, ◌≡◌, refl, sym, ◌∙◌, subst, Bool, true, false, none, some, List, [], ◌∷◌, take, arith,
}
use hnb_blockchain.Prelude.Bytes.{Bytes, bytes_equal_iff}
use hnb_blockchain.Prelude.Assoc.{Dict, lookup, insert, lookup-insert}
use hnb_blockchain.Ledger.Types.{Transaction}
use hnb_blockchain.Txpool.TxList.{TxList}
use hnb_blockchain.Txpool.TxList.Laws.{Held}
use hnb_blockchain.Txpool.Accounts.{remove_tx}
use hnb_blockchain.Txpool.Pool.Slots.{slot}
use hnb_blockchain.Txpool.TxList
use hnb_blockchain.Txpool.TxList.{new_tx_list}
use hnb_blockchain.Txpool.Pool.{TxPool}
use hnb_blockchain.Txpool.Pool.Moving.{forget_all}
use hnb_blockchain.Txpool.Ordered.{at_least}
use hnb_blockchain.Txpool.TxList.Laws.{
  forward-Held, ready-Held, cap-Held, ready_rest, get-empty, forward-strict, ready-strict,
  cap-strict,
}
use hnb_blockchain.Txpool.Pool.Moving.{cut_queue}
use hnb_blockchain.Txpool.Pool.Splits.{
  Splits, forward-Splits, ready-Splits, cap-Splits, none-Splits,
}
use hnb_blockchain.Txpool.Pool.Consistent.Taking.{slot-found, renamed}
use hnb_blockchain.Txpool.Pool.Consistent.Placing.{Sound}

-- A part of the list is taken.
pub record Taken (l l' : TxList) (r : List Transaction) (txs : List Transaction) : Type 0 where
  pub kept : List Transaction
  pub held : Held l' kept
  pub splits : Splits txs kept r
  pub mode : l'.strict ≡ l.strict

pub taken :
    {l l' : TxList} {r r' txs : List Transaction} (kept : List Transaction)
    → Held l' kept
    → r' ≡ r
    → Splits txs kept r
    → l'.strict ≡ l.strict
    → Taken l l' r' txs
taken {l} {l'} {r} {r'} {txs} kept h e s b = record {
  mode = b;
  kept = kept;
  held = h;
  splits = subst (λ (u : List Transaction). Splits txs kept u) (sym e) s;
}

pub forward-taken :
    {l : TxList} {txs : List Transaction} (t : ℕ)
    → Held l txs
    → Taken l (TxList.forward t l).0 (TxList.forward t l).1 txs
forward-taken {l} {txs} t h =
    let p = forward-Held t h in
    taken (at_least t txs) p.0 p.1 (forward-Splits txs h.holds.stores.ascending h.words t)
      (forward-strict t l)

pub ready-taken :
    {l : TxList} {txs : List Transaction} (t : ℕ)
    → Held l txs
    → Taken l (TxList.ready t l).0 (TxList.ready t l).1 txs
ready-taken {l} {txs} t h =
    let p = ready-Held t h in
    taken (ready_rest t txs) p.0 p.1 (ready-Splits txs h.holds.stores.ascending h.words t)
      (ready-strict t l)

pub cap-taken :
    {l : TxList} {txs : List Transaction} (t : ℕ)
    → Held l txs
    → Taken l (TxList.cap t l).0 (TxList.cap t l).1 txs
cap-taken {l} {txs} t h =
    let p = cap-Held t h in
    taken (take t txs) p.0 p.1 (cap-Splits txs h.holds.stores.ascending h.words t) (cap-strict t l)

pub cut-taken :
    {l : TxList} {txs : List Transaction} (local : Bool) (t : ℕ)
    → Held l txs
    → Taken l (cut_queue local t l).0 (cut_queue local t l).1 txs
cut-taken {l} {txs} true t h =
    taken txs h refl (none-Splits txs h.holds.stores.ascending h.words) refl
cut-taken {l} {txs} false t h = cap-taken t h

pub lookup_inserted :
    {V : Type 0} (k : Bytes) (v : V) (m : Dict V) → lookup k (insert k v m) ≡ some v
lookup_inserted k v m = ground (arith, lookup-insert k k v m, bytes_equal_iff k k)

pub emptied :
    {l : TxList} {txs : List Transaction} (addr : Bytes) (m : Dict TxList)
    → lookup addr m ≡ some l
    → Held l txs
    → TxList.empty l ≡ true
    → (n : ℕ) → slot m addr n ≡ none
emptied {l} addr m e h t n = slot-found addr n l m e ∙ get-empty n h t

pub named : (a b : Bytes) (pool : TxPool) → Sound pool a [] → Sound pool b []
named a b pool s = renamed pool.pending pool.queue pool.all a b s

pub forget_all-queue :
    (r : List Transaction) (pool : TxPool) → (forget_all r pool).queue ≡ pool.queue
unfolding forget_all
forget_all-queue [] pool = refl
forget_all-queue (tx ∷ r) pool =
    forget_all-queue r (record pool { all = remove_tx tx.txid pool.all })

pub forget_all-pending :
    (r : List Transaction) (pool : TxPool) → (forget_all r pool).pending ≡ pool.pending
unfolding forget_all
forget_all-pending [] pool = refl
forget_all-pending (tx ∷ r) pool =
    forget_all-pending r (record pool { all = remove_tx tx.txid pool.all })
