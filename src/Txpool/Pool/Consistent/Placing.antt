-- ===== src/Txpool/Pool/Consistent/Placing.antt =====
-- txpool/tx_pool.go: promoteTx, enqueueTx and the removals put the transactions on their way in a place.
use hnb_blockchain.Prelude.{
  ℕ, ◌+◌, ◌==◌, ◌<◌, ◌%◌, ◌^◌, if◌then◌else◌, ◌≡◌, refl, ap, sym, ◌∙◌, subst, Bool, true, false,
  Option, none, some, List, [], ◌∷◌,
}
use hnb_blockchain.Prelude.Bytes.{Bytes}
use hnb_blockchain.Prelude.Assoc.{Dict, lookup, insert}
use hnb_blockchain.Prelude.Result.{Result, ok}
use hnb_blockchain.Ledger.Types.{Transaction}
use hnb_blockchain.Txpool.SortedMap
use hnb_blockchain.Txpool.TxList.{TxList}
use hnb_blockchain.Txpool.TxList.Laws.{Held}
use hnb_blockchain.Txpool.Accounts.{TxLookup, get_tx, remove_tx}
use hnb_blockchain.Txpool.Pool.Slots.{in_list, slot, AreHeld}
use hnb_blockchain.Txpool.Pool.Consistent.{
  IsConsistent, Extends, hand_to_pending, hand_to_queue, hand_to_void, hand_known, hand_free,
}
use hnb_blockchain.Txpool.TxList
use hnb_blockchain.Txpool.Ordered.{put_in}
use hnb_blockchain.Txpool.TxList.{new_tx_list}
use hnb_blockchain.Txpool.TxList.Laws.{put-Held, new-Held, new-strict, get-put, get-new, add-grows}
use hnb_blockchain.Txpool.Accounts.{set_nonce}
use hnb_blockchain.Txpool.Pool.{TxPool, Chain, list_or_new, know, enqueue_tx}
use hnb_blockchain.Txpool.Pool.Moving.{forget_all, promote_tx, promote_all, enqueue_all}

-- The pool is consistent, with the transactions `r` of `addr` on their way.
abbrev pub Sound : TxPool → Bytes → List Transaction → Type 0
Sound pool addr r = IsConsistent pool.pending pool.queue pool.all addr r

pub forget_all-Sound :
    (r : List Transaction) (pool : TxPool) (addr : Bytes)
    → Sound pool addr r
    → Sound (forget_all r pool) addr []
unfolding forget_all
forget_all-Sound [] pool addr s = s
forget_all-Sound (tx ∷ r) pool addr s =
    forget_all-Sound r (record pool { all = remove_tx tx.txid pool.all }) addr
      (hand_to_void pool.pending pool.queue pool.all addr tx r s)

-- The list of an account with one more transaction.
abbrev pub grown : Bool → Dict TxList → Bytes → Transaction → TxList
grown strict m addr tx =
    let l = list_or_new strict (lookup addr m) in record l { txs = SortedMap.put tx l.txs }

pub get_of :
    (strict : Bool) (o : Option TxList) (n : ℕ)
    → SortedMap.get n (list_or_new strict o).txs ≡ in_list n o
get_of strict none n = get-new n strict
get_of strict (some l) n = refl

pub get_at :
    (strict : Bool) (m : Dict TxList) (addr : Bytes) (n : ℕ)
    → SortedMap.get n (list_or_new strict (lookup addr m)).txs ≡ slot m addr n
unfolding slot
get_at strict m addr n = get_of strict (lookup addr m) n

pub grown-Extends :
    (strict : Bool) (m : Dict TxList) (addr : Bytes) (tx : Transaction)
    → Extends m addr tx (grown strict m addr tx)
grown-Extends strict m addr tx n =
    get-put n tx (list_or_new strict (lookup addr m)).txs
    ∙ ap (λ o. if tx.nonce_value == n then some tx else o) (get_at strict m addr n)

grown_of :
    (strict : Bool) (o : Option TxList) (tx : Transaction)
    → tx.nonce_value < 2 ^ 64
    → ((l : TxList) → o ≡ some l → (txs : List Transaction) × Held l txs × (l.strict ≡ strict))
    → (txs : List Transaction) × Held
        (record (list_or_new strict o) { txs = SortedMap.put tx (list_or_new strict o).txs })
        txs
      × ((list_or_new strict o).strict ≡ strict)
grown_of strict none tx w h = (put_in tx [], put-Held tx w (new-Held strict), new-strict strict)
grown_of strict (some l) tx w h = let p = h l refl in (put_in tx p.0, put-Held tx w p.1, p.2)

pub grown-Held :
    (strict : Bool) (m : Dict TxList) (addr : Bytes) (tx : Transaction)
    → tx.nonce_value < 2 ^ 64
    → AreHeld strict m
    → (txs : List Transaction) × Held (grown strict m addr tx) txs
      × ((grown strict m addr tx).strict ≡ strict)
grown-Held strict m addr tx w h = grown_of strict (lookup addr m) tx w (λ l e. h.each addr l e)

pub add_at :
    (strict : Bool) (m : Dict TxList) (addr : Bytes) (tx : Transaction)
    → slot m addr tx.nonce_value ≡ none
    → TxList.add tx (list_or_new strict (lookup addr m)) ≡ (grown strict m addr tx, true, none)
add_at strict m addr tx e =
    add-grows (list_or_new strict (lookup addr m)) tx (get_at strict m addr tx.nonce_value ∙ e)

known_stays :
    (tx : Transaction) (all : TxLookup) → get_tx tx.txid all ≡ some tx → know tx.txid tx all ≡ all
unfolding know
known_stays tx all e = rw e refl

-- A transaction on its way whose nonce is free becomes pending.
promote_tx-free :
    (c : Chain) (addr : Bytes) (tx : Transaction) (pool : TxPool)
    → slot pool.pending addr tx.nonce_value ≡ none
    → get_tx tx.txid pool.all ≡ some tx
    → (promote_tx c addr tx.txid tx pool).0 ≡ record pool {
      pending = insert addr (grown true pool.pending addr tx) pool.pending;
      beats = insert addr c.now pool.beats;
      pending_state = set_nonce addr ((tx.nonce_value + 1) % 2 ^ 64) pool.pending_state;
    }
unfolding promote_tx
promote_tx-free c addr tx pool e k =
    rw (add_at true pool.pending addr tx e, known_stays tx pool.all k) refl

pub promote_tx-Sound :
    (c : Chain) (addr : Bytes) (tx : Transaction) (r : List Transaction) (pool : TxPool)
    → Sound pool addr (tx ∷ r)
    → Sound (promote_tx c addr tx.txid tx pool).0 addr r
promote_tx-Sound c addr tx r pool s =
    let f = hand_free pool.pending pool.queue pool.all addr tx r s in
    let k = hand_known pool.pending pool.queue pool.all addr tx r s in
    let g = grown-Held true pool.pending addr tx s.in_hand.0 s.pending_held in
    subst (λ (q : TxPool). Sound q addr r) (sym (promote_tx-free c addr tx pool f.0 k.0))
      (hand_to_pending pool.pending pool.queue pool.all addr tx r (grown true pool.pending addr tx)
        g.0 s (grown-Extends true pool.pending addr tx) g.1 g.2)

pub promote_all-Sound :
    (c : Chain) (addr : Bytes) (r : List Transaction) (pool : TxPool)
    → Sound pool addr r
    → Sound (promote_all c addr r pool) addr []
unfolding promote_all
promote_all-Sound c addr [] pool s = s
promote_all-Sound c addr (tx ∷ r) pool s =
    promote_all-Sound c addr r (promote_tx c addr tx.txid tx pool).0
      (promote_tx-Sound c addr tx r pool s)

-- A known transaction whose nonce is free is queued.
enqueue_tx-free :
    (tx : Transaction) (pool : TxPool)
    → slot pool.queue tx.from tx.nonce_value ≡ none
    → get_tx tx.txid pool.all ≡ some tx
    → enqueue_tx tx.txid tx pool ≡ (
      ok false,
      record pool { queue = insert tx.from (grown false pool.queue tx.from tx) pool.queue },
    )
unfolding enqueue_tx
enqueue_tx-free tx pool e k =
    rw (add_at false pool.queue tx.from tx e, known_stays tx pool.all k) refl

pub enqueue_tx-Sound :
    (tx : Transaction) (r : List Transaction) (pool : TxPool)
    → Sound pool tx.from (tx ∷ r)
    → Sound (enqueue_tx tx.txid tx pool).1 tx.from r
enqueue_tx-Sound tx r pool s =
    let f = hand_free pool.pending pool.queue pool.all tx.from tx r s in
    let k = hand_known pool.pending pool.queue pool.all tx.from tx r s in
    let g = grown-Held false pool.queue tx.from tx s.in_hand.0 s.queue_held in
    subst (λ (q : Result Bool × TxPool). Sound q.1 tx.from r)
      (sym (enqueue_tx-free tx pool f.1 k.0))
      (hand_to_queue pool.pending pool.queue pool.all tx.from tx r
        (grown false pool.queue tx.from tx) g.0 s (grown-Extends false pool.queue tx.from tx) g.1
        g.2)

pub enqueue_all-Sound :
    (addr : Bytes) (r : List Transaction) (pool : TxPool)
    → Sound pool addr r
    → Sound (enqueue_all r pool) addr []
unfolding enqueue_all
enqueue_all-Sound addr [] pool s = s
enqueue_all-Sound addr (tx ∷ r) pool s =
    let e : tx.from ≡ addr = (hand_known pool.pending pool.queue pool.all addr tx r s).1 in
    enqueue_all-Sound addr r (enqueue_tx tx.txid tx pool).1 (
      subst (λ (a : Bytes). Sound (enqueue_tx tx.txid tx pool).1 a r) e
        (enqueue_tx-Sound tx r pool (subst (λ (a : Bytes). Sound pool a (tx ∷ r)) (sym e) s)))
