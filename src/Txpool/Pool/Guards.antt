-- ===== src/Txpool/Pool/Guards.antt =====
-- txpool/tx_pool.go: what add asks of a transaction, and what it leaves of one that it refuses.
use hnb_blockchain.Prelude.{
  ◌+◌, ◌%◌, ◌^◌, ◌≤◌, ◌<◌, ◌≡◌, ◌≢◌, refl, ap, sym, ◌∙◌, leb, if◌then◌else◌, Bool, true, false,
  Option, none, some, arith,
}
use hnb_blockchain.Prelude.Bytes.{Bytes, bytes_equal_iff}
use hnb_blockchain.Prelude.Assoc.{lookup, insert}
use hnb_blockchain.Prelude.Result.{Result, ok, err, Error}
use hnb_blockchain.Ledger.Types.{Transaction}
use hnb_blockchain.Txpool.SortedMap
use hnb_blockchain.Txpool.SortedMap.{new_tx_sorted_map}
use hnb_blockchain.Txpool.Items.{item}
use hnb_blockchain.Txpool.TxList
use hnb_blockchain.Txpool.TxList.{TxList, new_tx_list}
use hnb_blockchain.Txpool.TxList.Laws.{add-grows, add-refuses}
use hnb_blockchain.Txpool.Accounts.{present, get_tx, count}
use hnb_blockchain.Txpool.Pool.{
  Chain, TxPool, signed_by, validate_from, validate_tx, add_validated, add_valid, add, enqueue_tx,
  enqueued, marked, overlaps_pending, list_or_new,
}

-- What validateTx asks: a signer, who is the account of the transaction where the settings ask for it, and
-- whose nonce in the ledger is not beyond the transaction's.
pub record IsValid (c : Chain) (tx : Transaction) : Type 0 where
  pub from : Bytes
  pub signed : c.sender tx ≡ some from
  pub named : c.dev ≡ true → from ≡ tx.from
  pub current : c.ledger_nonce from ≤ tx.nonce_value
  pub checked : c.check_tx tx ≡ ok tt

signed_ok :
    (c : Chain) (tx : Transaction) (o : Option Bytes) (from : Bytes)
    → signed_by c tx o ≡ ok from
    → (o ≡ some from) × (c.dev ≡ true → from ≡ tx.from)
signed_ok c tx none from e = absurd (ground (arith, e))
signed_ok c tx (some f) from e = ground (arith, e, bytes_equal_iff f tx.from)

validated :
    (c : Chain) (tx : Transaction) (r : Result Bytes)
    → validate_from c tx r ≡ ok tt
    → (from : Bytes) × (r ≡ ok from)
      × (c.ledger_nonce from ≤ tx.nonce_value)
      × (c.check_tx tx ≡ ok tt)
validated c tx (err e) h = absurd (ground (arith, h))
validated c tx (ok from) h = (from, refl, ground (arith, h), ground (arith, h))

validate_tx-IsValid : (c : Chain) (tx : Transaction) → validate_tx c tx ≡ ok tt → IsValid c tx
unfolding validate_tx
validate_tx-IsValid c tx h =
    let v = validated c tx (signed_by c tx (c.sender tx)) h in
    let s = signed_ok c tx (c.sender tx) v.0 v.1 in
    record { from = v.0; signed = s.0; named = s.1; current = v.2; checked = v.3 }

added_valid :
    (v : Result (Unit {0})) (tx : Transaction) (local : Bool) (pool : TxPool) (b : Bool)
    → (add_validated v tx local pool).0 ≡ ok b
    → (v ≡ ok tt)
      × (count pool.all < (pool.config.global_slots + pool.config.global_queue) % 2 ^ 64)
added_valid (err e) tx local pool b h = absurd (ground (arith, h))
added_valid (ok u) tx local pool b h = (refl, ground (arith, h))

added :
    (c : Chain) (tx : Transaction) (local : Bool) (pool : TxPool) (b : Bool)
    (o : Option Transaction)
    → (if present o
        then (err Error.known_tx, pool)
        else add_validated (validate_tx c tx) tx local pool).0
      ≡ ok b
    → (o ≡ none) × ((add_validated (validate_tx c tx) tx local pool).0 ≡ ok b)
added c tx local pool b none h = (refl, h)
added c tx local pool b (some t) h = absurd (ground (arith, h))

-- add returns no error only for a transaction whose hash is new, that has a signer, who is the account it
-- names where the settings ask for it, whose nonce is at least the signer's nonce in the ledger, and that
-- its contract accepts; and only while the pool holds fewer transactions than its two limits together.
pub add-guards :
    (c : Chain) (tx : Transaction) (local : Bool) (pool : TxPool) (b : Bool)
    → (add c tx local pool).0 ≡ ok b
    → (get_tx tx.txid pool.all ≡ none)
      × IsValid c tx
      × (count pool.all < (pool.config.global_slots + pool.config.global_queue) % 2 ^ 64)
unfolding add
add-guards c tx local pool b h =
    let a = added c tx local pool b (get_tx tx.txid pool.all) h in
    let v = added_valid (validate_tx c tx) tx local pool b a.1 in
    (a.0, validate_tx-IsValid c tx v.0, v.1)

-- The queue of the account is written back as it is, empty where there was none.
abbrev pub touched : Transaction → TxPool → TxPool
touched tx pool = record pool {
  queue = insert tx.from (list_or_new false (lookup tx.from pool.queue)) pool.queue;
}

enqueued_fine :
    (l : TxList) (hash : Bytes) (tx : Transaction) (pool : TxPool) (e : Error)
    → (enqueued true none hash tx (record pool { queue = insert tx.from l pool.queue })).0 ≢ err e
enqueued_fine l hash tx pool e h = ground (arith, h)

same_error :
    (e : Error)
    → ◌≡◌ {A = Result Bool} (err Error.replace_underpriced) (err e)
    → e ≡ Error.replace_underpriced
same_error e h = ground (arith, h)

-- The queue of the account has a transaction with the nonce already.
abbrev pub IsQueued : Transaction → TxPool → Type 0
IsQueued tx pool =
    (l : TxList) × (old : Transaction) × (lookup tx.from pool.queue ≡ some l)
    × (SortedMap.get tx.nonce_value l.txs ≡ some old)

get-IsQueued :
    (tx : Transaction) (pool : TxPool) (old : Transaction) (o : Option TxList)
    → lookup tx.from pool.queue ≡ o
    → SortedMap.get tx.nonce_value (list_or_new false o).txs ≡ some old
    → IsQueued tx pool
unfolding SortedMap.get item new_tx_list new_tx_sorted_map
get-IsQueued tx pool old none l g = absurd (ground (arith, g))
get-IsQueued tx pool old (some x) l g = (x, old, l, g)

enqueue_refused :
    (hash : Bytes) (tx : Transaction) (pool : TxPool) (o : Option Transaction)
    → SortedMap.get tx.nonce_value (list_or_new false (lookup tx.from pool.queue)).txs ≡ o
    → (e : Error) → (enqueue_tx hash tx pool).0 ≡ err e
    → (e ≡ Error.replace_underpriced)
      × IsQueued tx pool
      × ((enqueue_tx hash tx pool).1 ≡ touched tx pool)
unfolding enqueue_tx
enqueue_refused hash tx pool none k e h =
    let l = list_or_new false (lookup tx.from pool.queue) in
    let l' = record l { txs = SortedMap.put tx l.txs } in
    absurd (
      enqueued_fine l' hash tx pool e (
        sym (
          ap
            (λ (r : TxList.Added).
              (enqueued r.1 r.2 hash tx (record pool { queue = insert tx.from r.0 pool.queue })).0)
            (add-grows l tx k))
        ∙ h))
enqueue_refused hash tx pool (some old) k e h =
    let l = list_or_new false (lookup tx.from pool.queue) in
    let q =
      ap
        (λ (r : TxList.Added).
          enqueued r.1 r.2 hash tx (record pool { queue = insert tx.from r.0 pool.queue }))
        (add-refuses l tx old k) in
    (
      same_error e (sym (ap (λ (r : Result Bool × TxPool). r.0) q) ∙ h),
      get-IsQueued tx pool old (lookup tx.from pool.queue) refl k,
      ap (λ (r : Result Bool × TxPool). r.1) q,
    )

-- Why a call fails with an error, and what it leaves.
pub data Left (c : Chain) (tx : Transaction) (pool : TxPool) (e : Error) (next : TxPool)
    : Type 0 where
  known_before :
      e ≡ Error.known_tx
      → present (get_tx tx.txid pool.all) ≡ true
      → next ≡ pool
      → Left c tx pool e next
  not_valid : validate_tx c tx ≡ err e → next ≡ pool → Left c tx pool e next
  no_room :
      e ≡ Error.queue_full
      → (pool.config.global_slots + pool.config.global_queue) % 2 ^ 64 ≤ count pool.all
      → next ≡ pool
      → Left c tx pool e next
  nonce_queued :
      e ≡ Error.replace_underpriced
      → IsQueued tx pool
      → next ≡ touched tx pool
      → Left c tx pool e next

marked_refused :
    (local : Bool) (tx : Transaction) (P : TxPool → Type 0) (r : Result Bool × TxPool) (e : Error)
    → (marked local tx.from r).0 ≡ err e
    → (r.0 ≡ err e → P r.1)
    → P (marked local tx.from r).1
marked_refused local tx P (err d, p) e h k = k h
marked_refused local tx P (ok b, p) e h k = absurd (ground (arith, h))

if_refused :
    (b : Bool) (d : Error) (pool : TxPool) (P : TxPool → Type 0) (r : Result Bool × TxPool)
    (e : Error)
    → (b ≡ true → e ≡ d → P pool)
    → (b ≡ false → r.0 ≡ err e → P r.1)
    → (if b then (err d, pool) else r).0 ≡ err e
    → P (if b then (err d, pool) else r).1
if_refused true d pool P r e t k h = t refl (ground (arith, h))
if_refused false d pool P r e t k h = k refl h

if_overlapping :
    (b : Bool) (pool : TxPool) (P : TxPool → Type 0) (r : Result Bool × TxPool) (e : Error)
    → (r.0 ≡ err e → P r.1)
    → (if b then (ok false, pool) else r).0 ≡ err e
    → P (if b then (ok false, pool) else r).1
if_overlapping true pool P r e k h = absurd (ground (arith, h))
if_overlapping false pool P r e k h = k h

module _ (c : Chain) (tx : Transaction) (local : Bool) (pool : TxPool) (e : Error) where
  add_valid-refused :
      (add_valid tx local pool).0 ≡ err e → Left c tx pool e (add_valid tx local pool).1
  unfolding add_valid
  add_valid-refused h =
      if_overlapping (overlaps_pending tx (lookup tx.from pool.pending)) pool (Left c tx pool e)
        (marked local tx.from (enqueue_tx tx.txid tx pool)) e
        (λ m.
          marked_refused local tx (Left c tx pool e) (enqueue_tx tx.txid tx pool) e m
            (λ k. let q = enqueue_refused tx.txid tx pool _ refl e k in nonce_queued q.0 q.1 q.2))
        h

  validated_refused :
      (v : Result (Unit {0}))
      → validate_tx c tx ≡ v
      → (add_validated v tx local pool).0 ≡ err e
      → Left c tx pool e (add_validated v tx local pool).1
  validated_refused (err d) w h = not_valid (w ∙ ground (arith, h)) refl
  validated_refused (ok u) w h =
      if_refused
        (leb ((pool.config.global_slots + pool.config.global_queue) % 2 ^ 64) (count pool.all))
        Error.queue_full pool (Left c tx pool e) (add_valid tx local pool) e
        (λ t d. no_room d (ground (arith, t)) refl) (λ f k. add_valid-refused k) h

-- Where add returns an error, it is one of four, each with its reason: the hash is known; validateTx
-- refuses the transaction with that error; the pool holds as many transactions as its two limits
-- together; or the queue of the account has a transaction with the nonce already, which stays. The pool
-- is left as it was, and in the last case that queue is written back, as it is.
pub add-refused :
    (c : Chain) (tx : Transaction) (local : Bool) (pool : TxPool) (e : Error)
    → (add c tx local pool).0 ≡ err e
    → Left c tx pool e (add c tx local pool).1
unfolding add
add-refused c tx local pool e h =
    if_refused (present (get_tx tx.txid pool.all)) Error.known_tx pool (Left c tx pool e)
      (add_validated (validate_tx c tx) tx local pool) e (λ t d. known_before d t refl)
      (λ f k. validated_refused c tx local pool e (validate_tx c tx) refl k) h
