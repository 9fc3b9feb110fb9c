-- ===== src/Txpool/Pool/Consistent/Taking.antt =====
-- txpool/tx_pool.go: transactions that enter the pool or leave a list are on their way.
use hnb_blockchain.Prelude.{
  ℕ, ◌<◌, ◌^◌, if◌then◌else◌, ◌≡◌, refl, subst, true, false, none, some, List, [], ◌∷◌, arith,
}
use hnb_blockchain.Prelude.Bytes.{Bytes, bytes_equal_iff}
use hnb_blockchain.Prelude.Assoc.{Dict, lookup, insert, erase}
use hnb_blockchain.Ledger.Types.{Transaction}
use hnb_blockchain.Txpool.Ordered.{find}
use hnb_blockchain.Txpool.SortedMap
use hnb_blockchain.Txpool.TxList.{TxList}
use hnb_blockchain.Txpool.TxList.Laws.{Held, get-Held}
use hnb_blockchain.Txpool.Accounts.{TxLookup, get_tx, add_tx}
use hnb_blockchain.Txpool.Pool.Slots.{
  slot, slot-insert, slot-erase, hand, apart, IsIndex-same, IsIndex-add, at_slot, AreHeld,
  insert-AreHeld, erase-AreHeld,
}
use hnb_blockchain.Txpool.Pool.Splits.{Splits}
use hnb_blockchain.Txpool.Pool.Consistent.{place, IsConsistent, get_tx-add_tx, hand-cons, hand-eq}

pub hand-nil : (addr a : Bytes) (n : ℕ) → hand addr [] a n ≡ none
unfolding hand find
hand-nil addr a n = ground arith

renamed_at :
    (p q : Dict TxList) (addr b a : Bytes) (n : ℕ)
    → apart (slot p a n) (slot q a n) (hand addr [] a n) ≡ true
    → (place p q addr [] a n ≡ place p q b [] a n)
      × (apart (slot p a n) (slot q a n) (hand b [] a n) ≡ true)
unfolding place
renamed_at p q addr b a n e = ground (arith, e, hand-nil addr a n, hand-nil b a n)

find-nil : (n : ℕ) → find n [] ≡ none
unfolding find
find-nil n = refl

pub slot-found :
    (addr : Bytes) (n : ℕ) (l : TxList) (m : Dict TxList)
    → lookup addr m ≡ some l
    → slot m addr n ≡ SortedMap.get n l.txs
unfolding slot
slot-found addr n l m e = rw e refl

free_place :
    (p q : Dict TxList) (addr : Bytes) (tx : Transaction)
    → slot p tx.from tx.nonce_value ≡ none
    → slot q tx.from tx.nonce_value ≡ none
    → place p q addr [] tx.from tx.nonce_value ≡ none
unfolding place
free_place p q addr tx f g = ground (arith, f, g, hand-nil addr tx.from tx.nonce_value)

entered :
    (p q : Dict TxList) (addr : Bytes) (tx : Transaction)
    → slot p tx.from tx.nonce_value ≡ none
    → slot q tx.from tx.nonce_value ≡ none
    → (a : Bytes) (n : ℕ) → apart (slot p a n) (slot q a n) (hand addr [] a n) ≡ true
    → (place p q tx.from (tx ∷ []) a n
        ≡ (if at_slot tx a n then some tx else place p q addr [] a n))
      × (apart (slot p a n) (slot q a n) (hand tx.from (tx ∷ []) a n) ≡ true)
unfolding place
entered p q addr tx f g a n e = ground (
  arith,
  e,
  f,
  g,
  bytes_equal_iff tx.from a,
  find-nil n,
  hand-nil addr a n,
  hand-cons tx.from tx [] a n,
)

-- With nothing on its way, any account may be named.
pub renamed :
    (p q : Dict TxList) (all : TxLookup) (addr b : Bytes)
    → IsConsistent p q all addr []
    → IsConsistent p q all b []
renamed p q all addr b c = record {
  index = IsIndex-same _ _ _ (λ a n. (same a n).0) c.index;
  apart_at = λ a n. (same a n).1;
  pending_held = c.pending_held;
  queue_held = c.queue_held;
  in_hand = tt;
}
  where
    same :
        (a : Bytes) (n : ℕ)
        → (place p q addr [] a n ≡ place p q b [] a n)
          × (apart (slot p a n) (slot q a n) (hand b [] a n) ≡ true)
    same a n = renamed_at p q addr b a n (c.apart_at a n)

-- A new transaction is on its way.
pub void_to_hand :
    (p q : Dict TxList) (all : TxLookup) (addr : Bytes) (tx : Transaction)
    → IsConsistent p q all addr []
    → tx.nonce_value < 2 ^ 64
    → get_tx tx.txid all ≡ none
    → slot p tx.from tx.nonce_value ≡ none
    → slot q tx.from tx.nonce_value ≡ none
    → IsConsistent p q (add_tx tx all) tx.from (tx ∷ [])
void_to_hand p q all addr tx c w k f g = record {
  index =
      IsIndex-add tx (place p q addr []) (place p q tx.from (tx ∷ [])) (λ h. get_tx h all)
        (λ h. get_tx h (add_tx tx all)) c.index (free_place p q addr tx f g) k
        (λ a n. (entered p q addr tx f g a n (c.apart_at a n)).0) (λ h. get_tx-add_tx tx h all);
  apart_at = λ a n. (entered p q addr tx f g a n (c.apart_at a n)).1;
  pending_held = c.pending_held;
  queue_held = c.queue_held;
  in_hand = (w, find-nil tx.nonce_value, tt);
}

module _ (p q : Dict TxList) (all : TxLookup) (addr : Bytes) (l l' : TxList)
    (txs k r : List Transaction) (c : IsConsistent p q all addr []) (h : Held l txs)
    (s : Splits txs k r) (h' : Held l' k) where
  from_queue :
      lookup addr q ≡ some l
      → (a : Bytes) (n : ℕ)
      → (place p q addr [] a n ≡ place p (insert addr l' q) addr r a n)
        × (apart (slot p a n) (slot (insert addr l' q) a n) (hand addr r a n) ≡ true)
  unfolding place
  from_queue e a n = ground (
    arith,
    slot-insert addr a n l' q,
    get-Held n h',
    slot-found addr n l q e,
    get-Held n h,
    s.parts n,
    s.disjoint n,
    c.apart_at a n,
    bytes_equal_iff addr a,
    hand-nil addr a n,
    hand-eq addr r a n,
  )

  from_pending :
      lookup addr p ≡ some l
      → (a : Bytes) (n : ℕ)
      → (place p q addr [] a n ≡ place (insert addr l' p) q addr r a n)
        × (apart (slot (insert addr l' p) a n) (slot q a n) (hand addr r a n) ≡ true)
  unfolding place
  from_pending e a n = ground (
    arith,
    slot-insert addr a n l' p,
    get-Held n h',
    slot-found addr n l p e,
    get-Held n h,
    s.parts n,
    s.disjoint n,
    c.apart_at a n,
    bytes_equal_iff addr a,
    hand-nil addr a n,
    hand-eq addr r a n,
  )

  -- A queue that is split: its second part is on its way.
  pub taken_from_queue :
      lookup addr q ≡ some l → l'.strict ≡ false → IsConsistent p (insert addr l' q) all addr r
  taken_from_queue e b = record {
    index = IsIndex-same _ _ _ (λ a n. (from_queue e a n).0) c.index;
    apart_at = λ a n. (from_queue e a n).1;
    pending_held = c.pending_held;
    queue_held = insert-AreHeld false addr l' k q h' b c.queue_held;
    in_hand = s.in_hand;
  }

  -- A pending list that is split: its second part is on its way.
  pub taken_from_pending :
      lookup addr p ≡ some l → l'.strict ≡ true → IsConsistent (insert addr l' p) q all addr r
  taken_from_pending e b = record {
    index = IsIndex-same _ _ _ (λ a n. (from_pending e a n).0) c.index;
    apart_at = λ a n. (from_pending e a n).1;
    pending_held = insert-AreHeld true addr l' k p h' b c.pending_held;
    queue_held = c.queue_held;
    in_hand = s.in_hand;
  }

place_same :
    (p q p' q' : Dict TxList) (addr : Bytes) (r : List Transaction) (a : Bytes) (n : ℕ)
    → slot p a n ≡ slot p' a n
    → slot q a n ≡ slot q' a n
    → place p q addr r a n ≡ place p' q' addr r a n
unfolding place
place_same p q p' q' addr r a n e f = rw (e, f) refl

-- Other lists with the same transactions.
pub same_slots :
    (p q p' q' : Dict TxList) (all : TxLookup) (addr : Bytes) (r : List Transaction)
    → IsConsistent p q all addr r
    → ((a : Bytes) (n : ℕ) → slot p a n ≡ slot p' a n)
    → ((a : Bytes) (n : ℕ) → slot q a n ≡ slot q' a n)
    → AreHeld true p'
    → AreHeld false q'
    → IsConsistent p' q' all addr r
same_slots p q p' q' all addr r c e f hp hq = record {
  index = IsIndex-same _ _ _ (λ a n. place_same p q p' q' addr r a n (e a n) (f a n)) c.index;
  apart_at = λ a n.
      subst (λ o. apart o (slot q' a n) (hand addr r a n) ≡ true) (e a n)
        (subst (λ o. apart (slot p a n) o (hand addr r a n) ≡ true) (f a n) (c.apart_at a n));
  pending_held = hp;
  queue_held = hq;
  in_hand = c.in_hand;
}

erased_same :
    (m : Dict TxList) (addr : Bytes)
    → ((n : ℕ) → slot m addr n ≡ none)
    → (a : Bytes) (n : ℕ) → slot m a n ≡ slot (erase addr m) a n
erased_same m addr e a n = ground (arith, slot-erase addr a n m, bytes_equal_iff addr a, e n)

-- A queue with no transaction is dropped.
pub cleared_queue :
    (p q : Dict TxList) (all : TxLookup) (addr : Bytes) (r : List Transaction)
    → IsConsistent p q all addr r
    → ((n : ℕ) → slot q addr n ≡ none)
    → IsConsistent p (erase addr q) all addr r
cleared_queue p q all addr r c e =
    same_slots p q p (erase addr q) all addr r c (λ a n. refl) (erased_same q addr e) c.pending_held
      (erase-AreHeld false addr q c.queue_held)

-- A pending list with no transaction is dropped.
pub cleared_pending :
    (p q : Dict TxList) (all : TxLookup) (addr : Bytes) (r : List Transaction)
    → IsConsistent p q all addr r
    → ((n : ℕ) → slot p addr n ≡ none)
    → IsConsistent (erase addr p) q all addr r
cleared_pending p q all addr r c e =
    same_slots p q (erase addr p) q all addr r c (erased_same p addr e) (λ a n. refl)
      (erase-AreHeld true addr p c.pending_held) c.queue_held
