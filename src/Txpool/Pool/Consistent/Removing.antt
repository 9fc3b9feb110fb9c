-- ===== src/Txpool/Pool/Consistent/Removing.antt =====
-- txpool/tx_pool.go: removeTx keeps the pool consistent.
use hnb_blockchain.Prelude.{
  ℕ, ltb, if◌then◌else◌, ◌≡◌, refl, sym, ◌∙◌, subst, Bool, true, false, Option, none, some, List,
  [], ◌∷◌, arith, inl, inr, ◌⊎◌, ◌≢◌,
}
use hnb_blockchain.Prelude.Bytes.{Bytes}
use hnb_blockchain.Prelude.Assoc.{Dict, lookup, insert, erase}
use hnb_blockchain.Ledger.Types.{Transaction}
use hnb_blockchain.Txpool.Ordered.{find}
use hnb_blockchain.Txpool.SortedMap
use hnb_blockchain.Txpool.TxList.{TxList}
use hnb_blockchain.Txpool.TxList.Laws.{Held, get-Held}
use hnb_blockchain.Txpool.Accounts.{get_tx, remove_tx}
use hnb_blockchain.Txpool.Pool.Slots.{slot, slot-insert, slot-erase, AreHeld, erase-AreHeld}
use hnb_blockchain.Txpool.Pool.Consistent.{hand_to_void}
use hnb_blockchain.Txpool.TxList
use hnb_blockchain.Txpool.TxList.{new_tx_list}
use hnb_blockchain.Txpool.Accounts.{set_nonce}
use hnb_blockchain.Txpool.Pool.{TxPool, Chain}
use hnb_blockchain.Txpool.Pool.Moving.{forget_all, promote_tx, promoted, promote_all, enqueue_all}
use hnb_blockchain.Txpool.SortedMap.{reverse_onto}
use hnb_blockchain.Txpool.TxList.Laws.{get-empty}
use hnb_blockchain.Txpool.Accounts.{get_nonce}
use hnb_blockchain.Txpool.Pool.Moving.{
  set_queue, set_pending, clear_queue, clear_pending, cut_queue, drop_stale, promote_ready,
  drop_over, promote_list, promote_found, promote_account, promote_accounts, demote_gap, has_gap,
  drop_executed, demote_list, demote_found, demote_accounts, demote_unexecutables,
}
use hnb_blockchain.Txpool.Pool.Consistent.Taking.{hand-nil, same_slots, slot-found}
use hnb_blockchain.Txpool.Pool.Consistent.Placing.{Sound, enqueue_all-Sound}
use hnb_blockchain.Txpool.Pool.Consistent.Parts.{Taken, named}
use hnb_blockchain.Txpool.SortedMap.{TxSortedMap, is_some, filter}
use hnb_blockchain.Txpool.TxList.{is_later, remove_later, if_removed, Removed}
use hnb_blockchain.Txpool.Pool.Moving
use hnb_blockchain.Txpool.Pool.Moving.{
  remove_found, remove_known, remove_from, removed_pending, remove_queued, store_queue, queue_entry,
  pending_entry, store_pending, lower_nonce, remove_each,
}
use hnb_blockchain.Txpool.Pool.Consistent.{place, hand_to_void}
use hnb_blockchain.Txpool.Pool.Consistent.ListRemoval.{remove-taken, remove-loose, remove-missing}
use hnb_blockchain.Txpool.Pool.Consistent.Demotion.{pending_taken, Listed}
use hnb_blockchain.Txpool.Pool.Consistent.Passes.{queue_taken, Queued}

cleared_same :
    (m : Dict TxList) (addr : Bytes) (l : TxList)
    → ((n : ℕ) → SortedMap.get n l.txs ≡ none)
    → (a : Bytes) (n : ℕ) → slot (insert addr l m) a n ≡ slot (erase addr m) a n
cleared_same m addr l e a n = ground (arith, slot-insert addr a n l m, slot-erase addr a n m, e n)

module _ (addr : Bytes) (l : TxList) (txs : List Transaction) (h : Held l txs)
    (r : List Transaction) (pool : TxPool) where
  pending_entry-Sound :
      (b : Bool)
      → TxList.empty l ≡ b
      → AreHeld true pool.pending
      → Sound (set_pending addr l pool) addr r
      → Sound (pending_entry b addr l pool) addr r
  pending_entry-Sound false e k c = c
  pending_entry-Sound true e k c =
      same_slots (insert addr l pool.pending) pool.queue (erase addr pool.pending) pool.queue
        pool.all addr r c (cleared_same pool.pending addr l (λ n. get-empty n h e)) (λ a n. refl)
        (erase-AreHeld true addr pool.pending k) c.queue_held

  queue_entry-Sound :
      (b : Bool)
      → TxList.empty l ≡ b
      → AreHeld false pool.queue
      → Sound (set_queue addr l pool) addr r
      → Sound (queue_entry b addr l pool) addr r
  queue_entry-Sound false e k c = c
  queue_entry-Sound true e k c =
      same_slots pool.pending (insert addr l pool.queue) pool.pending (erase addr pool.queue)
        pool.all addr r c (λ a n. refl) (cleared_same pool.queue addr l (λ n. get-empty n h e))
        c.pending_held (erase-AreHeld false addr pool.queue k)

pub lower_nonce-Sound :
    (c : Chain) (addr a : Bytes) (n : ℕ) (r : List Transaction) (pool : TxPool)
    → Sound pool a r
    → Sound (lower_nonce c addr n pool) a r
unfolding lower_nonce
lower_nonce-Sound c addr a n r pool s =
    if_nonce (ltb n (get_nonce c.ledger_nonce addr pool.pending_state))
  where
    if_nonce :
        (b : Bool)
        → Sound
            (if b
              then record pool { pending_state = set_nonce addr n pool.pending_state }
              else pool)
            a
            r
    if_nonce true = s
    if_nonce false = s

found_at :
    {l : TxList} {txs : List Transaction} (addr : Bytes) (m : Dict TxList) (tx : Transaction)
    → lookup addr m ≡ some l
    → Held l txs
    → slot m addr tx.nonce_value ≡ some tx
    → find tx.nonce_value txs ≡ some tx
found_at {l} addr m tx e h s =
    sym (get-Held tx.nonce_value h) ∙ sym (slot-found addr tx.nonce_value l m e) ∙ s

abbrev forgotten : Transaction → TxPool → TxPool
forgotten tx pool = record pool { all = remove_tx tx.txid pool.all }

-- The transaction leaves its pending list.
removed_pending-Sound :
    (c : Chain) (tx : Transaction) (d : Removed) (l : TxList) (txs : List Transaction)
    (pool : TxPool)
    → Listed tx.from l pool
    → Held l txs
    → l.strict ≡ true
    → d.1 ≡ true
    → Taken l d.0 (tx ∷ d.2) txs
    → Sound (removed_pending c tx d (forgotten tx pool)) tx.from []
removed_pending-Sound c tx (l', false, inv) l txs pool q h b e t = absurd (ground (arith, e))
removed_pending-Sound c tx (l', true, inv) l txs pool q h b e t =
    let s1 = pending_taken l' q h b t in
    let s2 = hand_to_void (insert tx.from l' pool.pending) pool.queue pool.all tx.from tx inv s1 in
    let s3 =
      pending_entry-Sound tx.from l' t.kept t.held inv (forgotten tx pool) (TxList.empty l') refl
        q.sound.pending_held s2 in
    lower_nonce-Sound c tx.from tx.from tx.nonce_value []
      (enqueue_all inv (store_pending tx.from l' (forgotten tx pool)))
      (enqueue_all-Sound tx.from inv (store_pending tx.from l' (forgotten tx pool)) s3)

from_pending-Sound :
    (c : Chain) (tx : Transaction) (l : TxList) (pool : TxPool)
    → Listed tx.from l pool
    → slot pool.pending tx.from tx.nonce_value ≡ some tx
    → Sound (removed_pending c tx (TxList.remove tx l) (forgotten tx pool)) tx.from []
from_pending-Sound c tx l pool q e =
    let h = q.sound.pending_held.each tx.from l q.listed in
    let t = remove-taken tx tx h.1 (found_at tx.from pool.pending tx q.listed h.1 e) in
    removed_pending-Sound c tx (TxList.remove tx l) l h.0 pool q h.1 h.2 t.0 t.1

-- The transaction leaves its queue.
from_queue-Sound :
    (tx : Transaction) (l : TxList) (pool : TxPool)
    → Queued tx.from l pool
    → slot pool.queue tx.from tx.nonce_value ≡ some tx
    → Sound (store_queue tx.from (TxList.remove tx l).0 (forgotten tx pool)) tx.from []
from_queue-Sound tx l pool q e =
    let h = q.sound.queue_held.each tx.from l q.listed in
    let t = remove-taken tx tx h.1 (found_at tx.from pool.queue tx q.listed h.1 e) in
    let l' = (TxList.remove tx l).0 in
    let t' : Taken l l' (tx ∷ []) h.0 =
      subst (λ (r : List Transaction). Taken l l' (tx ∷ r) h.0) (remove-loose tx l h.2) t.1 in
    let s1 = queue_taken l' q h.1 h.2 t' in
    let s2 = hand_to_void pool.pending (insert tx.from l' pool.queue) pool.all tx.from tx [] s1 in
    queue_entry-Sound tx.from l' t'.kept t'.held [] (forgotten tx pool) (TxList.empty l') refl
      q.sound.queue_held s2

slot-missing :
    (a : Bytes) (n : ℕ) (m : Dict TxList) (tx : Transaction)
    → lookup a m ≡ none
    → slot m a n ≢ some tx
unfolding slot
slot-missing a n m tx e f = ground (arith, e, f)

place-cases :
    (p q : Dict TxList) (b a : Bytes) (n : ℕ) (tx : Transaction)
    → place p q b [] a n ≡ some tx
    → (slot p a n ≡ some tx) ⊎ ((slot p a n ≡ none) × (slot q a n ≡ some tx))
unfolding place
place-cases p q b a n tx e = ground (arith, e, hand-nil b a n)

queued_found :
    (tx : Transaction) (pool : TxPool)
    → Sound pool tx.from []
    → slot pool.queue tx.from tx.nonce_value ≡ some tx
    → (o : Option TxList) → lookup tx.from pool.queue ≡ o
    → Sound (remove_queued tx o (forgotten tx pool)) tx.from []
queued_found tx pool s e none k = absurd (slot-missing tx.from tx.nonce_value pool.queue tx k e)
queued_found tx pool s e (some l) k =
    from_queue-Sound tx l pool (record { sound = s; listed = k }) e

missing-Sound :
    (c : Chain) (tx : Transaction) (l : TxList) (pool : TxPool)
    → Listed tx.from l pool
    → slot pool.pending tx.from tx.nonce_value ≡ none
    → slot pool.queue tx.from tx.nonce_value ≡ some tx
    → Sound (removed_pending c tx (TxList.remove tx l) (forgotten tx pool)) tx.from []
missing-Sound c tx l pool q f e =
    let h = q.sound.pending_held.each tx.from l q.listed in
    let g =
      sym (get-Held tx.nonce_value h.1)
      ∙ sym (slot-found tx.from tx.nonce_value l pool.pending q.listed)
      ∙ f in
    subst (λ (d : Removed). Sound (removed_pending c tx d (forgotten tx pool)) tx.from [])
      (sym (remove-missing tx h.1 g))
      (queued_found tx pool q.sound e (lookup tx.from pool.queue) refl)

Where : Transaction → TxPool → Type 0
Where tx pool =
    (slot pool.pending tx.from tx.nonce_value ≡ some tx)
    ⊎ ((slot pool.pending tx.from tx.nonce_value ≡ none)
        × (slot pool.queue tx.from tx.nonce_value ≡ some tx))

remove_from-Sound :
    (c : Chain) (tx : Transaction) (pool : TxPool)
    → Sound pool tx.from []
    → Where tx pool
    → (o : Option TxList) → lookup tx.from pool.pending ≡ o
    → Sound (remove_from c tx o (forgotten tx pool)) tx.from []
unfolding Where
remove_from-Sound c tx pool s (inl e) none k =
    absurd (slot-missing tx.from tx.nonce_value pool.pending tx k e)
remove_from-Sound c tx pool s (inr (f, e)) none k =
    queued_found tx pool s e (lookup tx.from pool.queue) refl
remove_from-Sound c tx pool s (inl e) (some l) k =
    from_pending-Sound c tx l pool (record { sound = s; listed = k }) e
remove_from-Sound c tx pool s (inr (f, e)) (some l) k =
    missing-Sound c tx l pool (record { sound = s; listed = k }) f e

remove_known-Sound :
    (c : Chain) (tx : Transaction) (pool : TxPool)
    → Sound pool tx.from []
    → place pool.pending pool.queue tx.from [] tx.from tx.nonce_value ≡ some tx
    → Sound (remove_known c tx.txid tx pool) tx.from []
unfolding remove_known Where
remove_known-Sound c tx pool s e =
    remove_from-Sound c tx pool s
      (place-cases pool.pending pool.queue tx.from tx.from tx.nonce_value tx e)
      (lookup tx.from pool.pending) refl

remove_found-Sound :
    (c : Chain) (hash a : Bytes) (pool : TxPool)
    → Sound pool a []
    → (o : Option Transaction) → get_tx hash pool.all ≡ o
    → Sound (remove_found c hash o pool) a []
remove_found-Sound c hash a pool s none e = s
remove_found-Sound c hash a pool s (some tx) e =
    let s' = named a tx.from pool s in
    let k = s'.index.listed hash tx e in
    named tx.from a (remove_known c hash tx pool) (
      subst (λ (h : Bytes). Sound (remove_known c h tx pool) tx.from []) k.0
        (remove_known-Sound c tx pool s' k.1))

-- removeTx takes a transaction out of its list and out of the known ones, and queues what it
-- invalidates: the pool stays consistent.
pub remove_tx-Sound :
    (c : Chain) (hash a : Bytes) (pool : TxPool)
    → Sound pool a []
    → Sound (Moving.remove_tx c hash pool) a []
unfolding Moving.remove_tx
remove_tx-Sound c hash a pool s = remove_found-Sound c hash a pool s (get_tx hash pool.all) refl

pub remove_each-Sound :
    (c : Chain) (a : Bytes) (txs : List Transaction) (pool : TxPool)
    → Sound pool a []
    → Sound (remove_each c txs pool) a []
unfolding remove_each
remove_each-Sound c a [] pool s = s
remove_each-Sound c a (tx ∷ txs) pool s =
    remove_each-Sound c a txs (Moving.remove_tx c tx.txid pool) (remove_tx-Sound c tx.txid a pool s)
