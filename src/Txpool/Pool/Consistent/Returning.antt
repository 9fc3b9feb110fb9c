-- ===== src/Txpool/Pool/Consistent/Returning.antt =====
-- txpool/tx_pool.go: reset, which reads the last transaction of each pending list, always returns.
use hnb_blockchain.Prelude.{
  ◌+◌, ◌<◌, ◌%◌, ◌^◌, ◌≡◌, refl, ap, ◌∙◌, false, Option, none, some, List, [], ◌∷◌, length, arith,
}
use hnb_blockchain.Prelude.Bytes.{Bytes, bytes_equal_iff}
use hnb_blockchain.Prelude.Assoc.{IsDistinct, Dict, lookup}
use hnb_blockchain.Ledger.Types.{Transaction}
use hnb_blockchain.Txpool.TxList.{TxList}
use hnb_blockchain.Txpool.TxList.Laws.{Held}
use hnb_blockchain.Txpool.Accounts.{TxLookup, get_tx, add_tx, remove_tx}
use hnb_blockchain.Txpool.TxList
use hnb_blockchain.Txpool.TxList.{new_tx_list}
use hnb_blockchain.Txpool.Accounts.{present, set_nonce}
use hnb_blockchain.Txpool.Pool.{TxPool, Chain}
use hnb_blockchain.Txpool.TxList.Laws.{list_len-Held}
use hnb_blockchain.Txpool.Accounts.{get_nonce, contains}
use hnb_blockchain.Txpool.Accounts
use hnb_blockchain.Txpool.Pool.Moving.{demote_unexecutables}
use hnb_blockchain.Txpool.Pool.Consistent.Placing.{Sound}
use hnb_blockchain.Txpool.TxList.{is_later, remove_later, if_removed, Removed}
use hnb_blockchain.Txpool.TxList.Laws.{flatten-Held}
use hnb_blockchain.Txpool.Pool.Reset.{promote_executables}
use hnb_blockchain.Txpool.Pool.Consistent.Demotion.{demote_unexecutables-Sound}
use hnb_blockchain.Txpool.Pool.Consistent.Limiting.{promote_executables-Sound}
use hnb_blockchain.Txpool.Pool.Reset.{
  add_txs_locked, flatten_lists, next_nonces, finish_reset, update_nonces, reset,
}
use hnb_blockchain.Txpool.Pool.Consistent.Calls.{AreNumbered, add_txs_locked-Sound}
use hnb_blockchain.Txpool.Pool.Reset.{last_of, next_nonce}
use hnb_blockchain.Txpool.Pool.Consistent.Flattening.{flattened-Sound}
use hnb_blockchain.Txpool.Pool.Consistent.Settling.{demote_unexecutables-nonempty}

last_some : (txs : List Transaction) → 0 < length txs → (tx : Transaction) × (last_of txs ≡ some tx)
last_some [] h = absurd (omega arith)
last_some (tx ∷ []) h = (tx, refl)
last_some (tx ∷ x ∷ txs) h = last_some (x ∷ txs) (omega arith)

flat_last :
    (l : TxList) (txs : List Transaction)
    → Held l txs
    → TxList.empty l ≡ false
    → (tx : Transaction) × (last_of (TxList.flatten l).1 ≡ some tx)
unfolding TxList.empty
flat_last l txs h e =
    let n : 0 < length txs = ground (arith, e, list_len-Held h) in
    let p = last_some txs n in (p.0, ap last_of (flatten-Held h).1 ∙ p.1)

tail_lookup :
    (k a : Bytes) (l x : TxList) (m : Dict TxList)
    → lookup k m ≡ none
    → lookup a m ≡ some x
    → lookup a ((k, l) ∷ m) ≡ some x
unfolding lookup
tail_lookup k a l x m d e = ground (arith, d, e, bytes_equal_iff k a)

head_lookup : (k : Bytes) (l : TxList) (m : Dict TxList) → lookup k ((k, l) ∷ m) ≡ some l
unfolding lookup
head_lookup k l m = ground (arith, bytes_equal_iff k k)

-- Every entry of the map has a list that is not empty.
Filled : Dict TxList → Type 0
Filled m =
    (a : Bytes) (l : TxList)
    → lookup a m ≡ some l
    → (txs : List Transaction) × Held l txs × (TxList.empty l ≡ false)

Filled-tail :
    (k : Bytes) (l : TxList) (m : Dict TxList) → lookup k m ≡ none → Filled ((k, l) ∷ m) → Filled m
unfolding Filled lookup
Filled-tail k l m d f a x e = f a x (tail_lookup k a l x m d e)

Filled-head :
    (k : Bytes) (l : TxList) (m : Dict TxList)
    → Filled ((k, l) ∷ m)
    → (txs : List Transaction) × Held l txs × (TxList.empty l ≡ false)
unfolding Filled
Filled-head k l m f = f k l (head_lookup k l m)

next_step :
    (k : Bytes) (txs : List Transaction) (m : Dict (List Transaction)) (tx : Transaction)
    (pc : Accounts.PendingCache)
    → last_of txs ≡ some tx
    → next_nonces ((k, txs) ∷ m) pc ≡ next_nonces m (set_nonce k ((tx.nonce_value + 1) % 2 ^ 64) pc)
unfolding next_nonces
next_step k txs m tx pc e =
    ap
      (λ (o : Option Transaction). elim (next_nonce k o pc) [
        | none ↦ none
        | some pc' ↦ next_nonces m pc'
      ])
      e

-- The nonces after the last transactions exist.
next_nonces-some :
    (m : Dict TxList) (pc : Accounts.PendingCache)
    → IsDistinct m
    → Filled m
    → (pc' : Accounts.PendingCache) × (next_nonces (flatten_lists m).1 pc ≡ some pc')
unfolding next_nonces flatten_lists
next_nonces-some [] pc d f = (pc, refl)
next_nonces-some ((k, l) ∷ m) pc d f =
    let h = Filled-head k l m f in
    let t = flat_last l h.0 h.1 h.2 in
    let ih =
      next_nonces-some m (set_nonce k ((t.0.nonce_value + 1) % 2 ^ 64) pc) d.1
        (Filled-tail k l m d.0 f) in
    (ih.0, next_step k (TxList.flatten l).1 (flatten_lists m).1 t.0 pc t.1 ∙ ih.1)

-- Where the pool is consistent and the transactions handed to it have nonces below 2 ^ 64, reset returns:
-- it does not panic at an empty pending list; and the pool that it leaves is consistent.
pub reset_returns :
    (c : Chain) (txs : List Transaction) (a : Bytes) (pool : TxPool)
    → Sound pool a []
    → AreNumbered txs
    → (p : TxPool) × (reset c txs pool ≡ some p) × Sound p a []
unfolding reset update_nonces Filled
reset_returns c txs a pool s w =
    let p1 = (add_txs_locked c txs false pool).0 in
    let s1 = add_txs_locked-Sound c txs false a pool s w in
    let p2 = demote_unexecutables c p1 in
    let s2 = demote_unexecutables-Sound c a p1 s1 in
    let n = next_nonces-some p2.pending p2.pending_state s2.pending_held.distinct (λ b l e. (
      (s2.pending_held.each b l e).0,
      (s2.pending_held.each b l e).1,
      demote_unexecutables-nonempty c a p1 s1 b l e,
    )) in
    let p3 = record p2 { pending = (flatten_lists p2.pending).0; pending_state = n.0 } in
    (
      promote_executables c none p3,
      ap (λ o. finish_reset c o (record p2 { pending = (flatten_lists p2.pending).0 })) n.1,
      promote_executables-Sound c none a p3 (flattened-Sound a p2 s2),
    )
