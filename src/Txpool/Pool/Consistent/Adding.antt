-- ===== src/Txpool/Pool/Consistent/Adding.antt =====
-- txpool/tx_pool.go: add keeps the pool consistent.
use hnb_blockchain.Prelude.{
  ℕ, ◌+◌, ◌<◌, ◌%◌, ◌^◌, leb, if◌then◌else◌, ◌≡◌, refl, sym, ◌∙◌, subst, Bool, true, false, Option,
  none, some, List, [], arith, inl, inr, Option-cases,
}
use hnb_blockchain.Prelude.Bytes.{Bytes, bytes_equal_iff}
use hnb_blockchain.Prelude.Assoc.{Dict, lookup, insert}
use hnb_blockchain.Prelude.Result.{Result, ok}
use hnb_blockchain.Ledger.Types.{Transaction}
use hnb_blockchain.Txpool.TxList.{TxList}
use hnb_blockchain.Txpool.TxList.Laws.{Held}
use hnb_blockchain.Txpool.Accounts.{get_tx, add_tx}
use hnb_blockchain.Txpool.Pool.Slots.{in_list, slot, slot-insert, AreHeld, insert-AreHeld}
use hnb_blockchain.Txpool.Pool.Consistent.{hand_to_queue}
use hnb_blockchain.Txpool.TxList.Laws.{new-Held, new-strict}
use hnb_blockchain.Txpool.Accounts.{present}
use hnb_blockchain.Txpool.Pool.{TxPool, Chain, list_or_new, know, enqueue_tx}
use hnb_blockchain.Txpool.Pool.Consistent.Taking.{same_slots, void_to_hand, renamed}
use hnb_blockchain.Txpool.Pool.Consistent.Placing.{
  grown, grown-Extends, grown-Held, add_at, get_at, Sound,
}
use hnb_blockchain.Prelude.Result.{err, Error}
use hnb_blockchain.Txpool.TxList.{overlaps}
use hnb_blockchain.Txpool.TxList.Laws.{add-refuses}
use hnb_blockchain.Txpool.SortedMap.{is_some}
use hnb_blockchain.Txpool.Accounts.{count}
use hnb_blockchain.Txpool.Pool.{
  overlaps_pending, marked, add_valid, add_validated, add, validate_tx,
}

overlaps_of :
    (tx : Transaction) (o : Option TxList)
    → overlaps_pending tx o ≡ is_some (in_list tx.nonce_value o)
unfolding overlaps
overlaps_of tx none = refl
overlaps_of tx (some l) = refl

overlaps_at :
    (tx : Transaction) (m : Dict TxList)
    → overlaps_pending tx (lookup tx.from m) ≡ is_some (slot m tx.from tx.nonce_value)
unfolding slot
overlaps_at tx m = overlaps_of tx (lookup tx.from m)

free_of : (o : Option Transaction) → is_some o ≡ false → o ≡ none
free_of none e = refl
free_of (some x) e = absurd (ground (arith, e))

-- A new transaction whose nonce is free is queued and becomes known.
enqueue_tx-new :
    (tx : Transaction) (pool : TxPool)
    → slot pool.queue tx.from tx.nonce_value ≡ none
    → get_tx tx.txid pool.all ≡ none
    → enqueue_tx tx.txid tx pool ≡ (
      ok false,
      record pool {
        queue = insert tx.from (grown false pool.queue tx.from tx) pool.queue;
        all = add_tx tx pool.all;
      },
    )
unfolding enqueue_tx know
enqueue_tx-new tx pool e k = rw (add_at false pool.queue tx.from tx e, k) refl

-- One whose nonce is queued already is refused; the queue is written back as it is.
enqueue_tx-taken :
    (tx old : Transaction) (pool : TxPool)
    → slot pool.queue tx.from tx.nonce_value ≡ some old
    → enqueue_tx tx.txid tx pool ≡ (
      err Error.replace_underpriced,
      record pool {
        queue = insert tx.from (list_or_new false (lookup tx.from pool.queue)) pool.queue;
      },
    )
unfolding enqueue_tx
enqueue_tx-taken tx old pool e =
    rw
      (add-refuses (list_or_new false (lookup tx.from pool.queue)) tx old
        (get_at false pool.queue tx.from tx.nonce_value ∙ e))
      refl

new-Sound :
    (tx : Transaction) (pool : TxPool) (a : Bytes)
    → Sound pool a []
    → tx.nonce_value < 2 ^ 64
    → get_tx tx.txid pool.all ≡ none
    → slot pool.pending tx.from tx.nonce_value ≡ none
    → slot pool.queue tx.from tx.nonce_value ≡ none
    → Sound (enqueue_tx tx.txid tx pool).1 a []
new-Sound tx pool a s w k f g =
    let c = void_to_hand pool.pending pool.queue pool.all a tx s w k f g in
    let h = grown-Held false pool.queue tx.from tx w s.queue_held in
    subst (λ (q : Result Bool × TxPool). Sound q.1 a []) (sym (enqueue_tx-new tx pool g k))
      (renamed pool.pending (insert tx.from (grown false pool.queue tx.from tx) pool.queue)
        (add_tx tx pool.all) tx.from a
        (hand_to_queue pool.pending pool.queue (add_tx tx pool.all) tx.from tx []
          (grown false pool.queue tx.from tx) h.0 c (grown-Extends false pool.queue tx.from tx) h.1
          h.2))

rewritten_same :
    (m : Dict TxList) (b a : Bytes) (n : ℕ)
    → slot m a n ≡ slot (insert b (list_or_new false (lookup b m)) m) a n
rewritten_same m b a n = ground (
  arith,
  slot-insert b a n (list_or_new false (lookup b m)) m,
  get_at false m b n,
  bytes_equal_iff b a,
)

rewritten-Held :
    (m : Dict TxList) (b : Bytes)
    → AreHeld false m
    → (o : Option TxList) → lookup b m ≡ o
    → (txs : List Transaction) × Held (list_or_new false o) txs
      × ((list_or_new false o).strict ≡ false)
rewritten-Held m b h none e = ([], new-Held false, new-strict false)
rewritten-Held m b h (some l) e = h.each b l e

taken-Sound :
    (tx old : Transaction) (pool : TxPool) (a : Bytes)
    → Sound pool a []
    → slot pool.queue tx.from tx.nonce_value ≡ some old
    → Sound (enqueue_tx tx.txid tx pool).1 a []
taken-Sound tx old pool a s e =
    let l = list_or_new false (lookup tx.from pool.queue) in
    let h = rewritten-Held pool.queue tx.from s.queue_held (lookup tx.from pool.queue) refl in
    subst (λ (q : Result Bool × TxPool). Sound q.1 a []) (sym (enqueue_tx-taken tx old pool e))
      (same_slots pool.pending pool.queue pool.pending (insert tx.from l pool.queue) pool.all a [] s
        (λ b n. refl) (rewritten_same pool.queue tx.from) s.pending_held
        (insert-AreHeld false tx.from l h.0 pool.queue h.1 h.2 s.queue_held))

queued-Sound :
    (tx : Transaction) (pool : TxPool) (a : Bytes)
    → Sound pool a []
    → tx.nonce_value < 2 ^ 64
    → get_tx tx.txid pool.all ≡ none
    → slot pool.pending tx.from tx.nonce_value ≡ none
    → Sound (enqueue_tx tx.txid tx pool).1 a []
queued-Sound tx pool a s w k f = elim (Option-cases (slot pool.queue tx.from tx.nonce_value)) [
  | inl g ↦ new-Sound tx pool a s w k f g
  | inr (old, e) ↦ taken-Sound tx old pool a s e
]

marked-Sound :
    (local : Bool) (from a : Bytes) (r : Result Bool × TxPool)
    → Sound r.1 a []
    → Sound (marked local from r).1 a []
marked-Sound local from a (err e, pool) s = s
marked-Sound local from a (ok b, pool) s = s

valid-Sound :
    (tx : Transaction) (local : Bool) (pool : TxPool) (a : Bytes)
    → Sound pool a []
    → tx.nonce_value < 2 ^ 64
    → get_tx tx.txid pool.all ≡ none
    → (b : Bool) → overlaps_pending tx (lookup tx.from pool.pending) ≡ b
    → Sound
        (if b then (ok false, pool) else marked local tx.from (enqueue_tx tx.txid tx pool)).1
        a
        []
valid-Sound tx local pool a s w k true e = s
valid-Sound tx local pool a s w k false e =
    marked-Sound local tx.from a (enqueue_tx tx.txid tx pool) (
      queued-Sound tx pool a s w k (
        free_of (slot pool.pending tx.from tx.nonce_value) (sym (overlaps_at tx pool.pending) ∙ e)))

add_valid-Sound :
    (tx : Transaction) (local : Bool) (pool : TxPool) (a : Bytes)
    → Sound pool a []
    → tx.nonce_value < 2 ^ 64
    → get_tx tx.txid pool.all ≡ none
    → Sound (add_valid tx local pool).1 a []
unfolding add_valid
add_valid-Sound tx local pool a s w k =
    valid-Sound tx local pool a s w k (overlaps_pending tx (lookup tx.from pool.pending)) refl

if_same :
    (b : Bool) (r : Result Bool × TxPool) (e : Error) (pool : TxPool) (a : Bytes)
    → Sound pool a []
    → Sound r.1 a []
    → Sound (if b then (err e, pool) else r).1 a []
if_same true r e pool a s t = s
if_same false r e pool a s t = t

add_validated-Sound :
    (v : Result (Unit {0})) (tx : Transaction) (local : Bool) (pool : TxPool) (a : Bytes)
    → Sound pool a []
    → tx.nonce_value < 2 ^ 64
    → get_tx tx.txid pool.all ≡ none
    → Sound (add_validated v tx local pool).1 a []
add_validated-Sound (err e) tx local pool a s w k = s
add_validated-Sound (ok u) tx local pool a s w k =
    if_same (leb ((pool.config.global_slots + pool.config.global_queue) % 2 ^ 64) (count pool.all))
      (add_valid tx local pool) Error.queue_full pool a s (add_valid-Sound tx local pool a s w k)

add_at_hash :
    (c : Chain) (tx : Transaction) (local : Bool) (pool : TxPool) (a : Bytes)
    → Sound pool a []
    → tx.nonce_value < 2 ^ 64
    → (o : Option Transaction) → get_tx tx.txid pool.all ≡ o
    → Sound
        (if present o
          then (err Error.known_tx, pool)
          else add_validated (validate_tx c tx) tx local pool).1
        a
        []
add_at_hash c tx local pool a s w none e =
    add_validated-Sound (validate_tx c tx) tx local pool a s w e
add_at_hash c tx local pool a s w (some t) e = s

-- Whatever add returns, the pool is consistent.
pub add-Sound :
    (c : Chain) (tx : Transaction) (local : Bool) (pool : TxPool) (a : Bytes)
    → Sound pool a []
    → tx.nonce_value < 2 ^ 64
    → Sound (add c tx local pool).1 a []
unfolding add
add-Sound c tx local pool a s w = add_at_hash c tx local pool a s w (get_tx tx.txid pool.all) refl
