-- ===== src/Txpool/Pool/Consistent.antt =====
-- txpool/tx_pool.go: the pending lists, the queues and the transactions by hash agree, also while some
-- transactions of one account are between two lists.
pub mod Taking
pub mod Placing
pub mod Parts
pub mod Passes
pub mod Demotion
pub mod Adding
pub mod ListRemoval
pub mod Removing
pub mod Limiting
pub mod Flattening
pub mod Calls
pub mod Settling
pub mod Returning
use hnb_blockchain.Prelude.{
  ℕ, suc, ◌+◌, ◌==◌, ◌<◌, ◌^◌, ltb, leb, if◌then◌else◌, ◌≡◌, refl, ap, sym, ◌∙◌, subst, Bool, true,
  false, not, Option, none, some, List, [], ◌∷◌, ◌++◌, take, drop, length, arith, inl, inr, ◌⊎◌,
  ◌≢◌, Option-cases, Bool-cases,
}
use hnb_blockchain.Prelude.Bytes.{Bytes, bytes_equal, bytes_equal_iff}
use hnb_blockchain.Prelude.Assoc.{Dict, lookup, insert, erase, lookup-insert, lookup-erase}
use hnb_blockchain.Ledger.Types.{Transaction}
use hnb_blockchain.Txpool.Ordered.{find}
use hnb_blockchain.Txpool.SortedMap
use hnb_blockchain.Txpool.TxList.{TxList}
use hnb_blockchain.Txpool.TxList.Laws.{Held, get-Held}
use hnb_blockchain.Txpool.Accounts.{TxLookup, get_tx, add_tx, remove_tx}
use hnb_blockchain.Txpool.Pool.Slots.{
  slot, slot-insert, slot-erase, hand, first, apart, IsIndex, IsIndex-same, IsIndex-add,
  IsIndex-remove, at_slot, IsHand, AreHeld, insert-AreHeld, erase-AreHeld,
}

-- Where a transaction is: pending, queued, or on its way.
unfoldable pub place :
    Dict TxList → Dict TxList → Bytes → List Transaction → Bytes → ℕ → Option Transaction
place p q addr r a n = first (slot p a n) (first (slot q a n) (hand addr r a n))

-- The pending lists `p`, the queues `q`, the transactions by their hashes, and the transactions `r` of
-- `addr` on their way agree: every transaction stands in one place, under its account and its nonce,
-- and is known by its hash, and every known one stands somewhere.
pub record IsConsistent (p q : Dict TxList) (all : TxLookup) (addr : Bytes) (r : List Transaction)
    : Type 0 where
  pub index : IsIndex (place p q addr r) (λ h. get_tx h all)
  pub apart_at : (a : Bytes) (n : ℕ) → apart (slot p a n) (slot q a n) (hand addr r a n) ≡ true
  pub pending_held : AreHeld true p
  pub queue_held : AreHeld false q
  pub in_hand : IsHand r

-- `l'` is the list of `addr` in `m` with one more transaction.
abbrev pub Extends : Dict TxList → Bytes → Transaction → TxList → Type 0
Extends m addr tx l' =
    (n : ℕ) → SortedMap.get n l'.txs ≡ (if tx.nonce_value == n then some tx else slot m addr n)

pub get_tx-remove_tx :
    (hash h : Bytes) (all : TxLookup)
    → get_tx h (remove_tx hash all) ≡ (if bytes_equal hash h then none else get_tx h all)
unfolding get_tx remove_tx
get_tx-remove_tx hash h all = lookup-erase hash h all.all

pub get_tx-add_tx :
    (tx : Transaction) (h : Bytes) (all : TxLookup)
    → get_tx h (add_tx tx all) ≡ (if bytes_equal tx.txid h then some tx else get_tx h all)
unfolding get_tx add_tx
get_tx-add_tx tx h all = lookup-insert tx.txid h tx all.all

pub hand-cons :
    (addr : Bytes) (tx : Transaction) (r : List Transaction) (a : Bytes) (n : ℕ)
    → hand addr (tx ∷ r) a n
      ≡ (if bytes_equal addr a then if tx.nonce_value == n then some tx else find n r else none)
unfolding hand find
hand-cons addr tx r a n = refl

pub hand-eq :
    (addr : Bytes) (r : List Transaction) (a : Bytes) (n : ℕ)
    → hand addr r a n ≡ (if bytes_equal addr a then find n r else none)
unfolding hand
hand-eq addr r a n = refl

module _ (p q : Dict TxList) (all : TxLookup) (addr : Bytes) (tx : Transaction)
    (r : List Transaction) where
  module _ (l' : TxList) (c : IsConsistent p q all addr (tx ∷ r)) where
    moved_to_pending :
        Extends p addr tx l'
        → (a : Bytes) (n : ℕ)
        → (place p q addr (tx ∷ r) a n ≡ place (insert addr l' p) q addr r a n)
          × (apart (slot (insert addr l' p) a n) (slot q a n) (hand addr r a n) ≡ true)
    unfolding place
    moved_to_pending g a n = ground (
      arith,
      g n,
      c.apart_at a n,
      bytes_equal_iff addr a,
      c.in_hand.1,
      slot-insert addr a n l' p,
      hand-cons addr tx r a n,
      hand-eq addr r a n,
    )

    moved_to_queue :
        Extends q addr tx l'
        → (a : Bytes) (n : ℕ)
        → (place p q addr (tx ∷ r) a n ≡ place p (insert addr l' q) addr r a n)
          × (apart (slot p a n) (slot (insert addr l' q) a n) (hand addr r a n) ≡ true)
    unfolding place
    moved_to_queue g a n = ground (
      arith,
      g n,
      c.apart_at a n,
      bytes_equal_iff addr a,
      c.in_hand.1,
      slot-insert addr a n l' q,
      hand-cons addr tx r a n,
      hand-eq addr r a n,
    )

  -- The first transaction on its way becomes pending.
  pub hand_to_pending :
      (l' : TxList) (txs : List Transaction)
      → IsConsistent p q all addr (tx ∷ r)
      → Extends p addr tx l'
      → Held l' txs
      → l'.strict ≡ true
      → IsConsistent (insert addr l' p) q all addr r
  hand_to_pending l' txs c g h b = record {
    index = IsIndex-same _ _ _ (λ a n. (moved_to_pending l' c g a n).0) c.index;
    apart_at = λ a n. (moved_to_pending l' c g a n).1;
    pending_held = insert-AreHeld true addr l' txs p h b c.pending_held;
    queue_held = c.queue_held;
    in_hand = c.in_hand.2;
  }

  -- The first transaction on its way is queued.
  pub hand_to_queue :
      (l' : TxList) (txs : List Transaction)
      → IsConsistent p q all addr (tx ∷ r)
      → Extends q addr tx l'
      → Held l' txs
      → l'.strict ≡ false
      → IsConsistent p (insert addr l' q) all addr r
  hand_to_queue l' txs c g h b = record {
    index = IsIndex-same _ _ _ (λ a n. (moved_to_queue l' c g a n).0) c.index;
    apart_at = λ a n. (moved_to_queue l' c g a n).1;
    pending_held = c.pending_held;
    queue_held = insert-AreHeld false addr l' txs q h b c.queue_held;
    in_hand = c.in_hand.2;
  }

  hand_place :
      IsConsistent p q all addr (tx ∷ r) → place p q addr (tx ∷ r) addr tx.nonce_value ≡ some tx
  unfolding place
  hand_place c = ground (
    arith,
    c.apart_at addr tx.nonce_value,
    bytes_equal_iff addr addr,
    hand-cons addr tx r addr tx.nonce_value,
  )

  -- The first transaction on its way is known, and is the account's own.
  pub hand_known :
      IsConsistent p q all addr (tx ∷ r) → (get_tx tx.txid all ≡ some tx) × (tx.from ≡ addr)
  hand_known c = let k = c.index.filed addr tx.nonce_value tx (hand_place c) in (k.0, k.1)

  -- Its nonce is free in the lists of the account.
  pub hand_free :
      IsConsistent p q all addr (tx ∷ r)
      → (slot p addr tx.nonce_value ≡ none) × (slot q addr tx.nonce_value ≡ none)
  hand_free c = ground (
    arith,
    c.apart_at addr tx.nonce_value,
    bytes_equal_iff addr addr,
    hand-cons addr tx r addr tx.nonce_value,
  )

  own_place :
      IsConsistent p q all addr (tx ∷ r) → place p q addr (tx ∷ r) tx.from tx.nonce_value ≡ some tx
  own_place c =
      subst (λ (a : Bytes). place p q addr (tx ∷ r) a tx.nonce_value ≡ some tx)
        (sym (hand_known c).1) (hand_place c)

  dropped :
      IsConsistent p q all addr (tx ∷ r)
      → (a : Bytes) (n : ℕ)
      → (place p q addr r a n ≡ (if at_slot tx a n then none else place p q addr (tx ∷ r) a n))
        × (apart (slot p a n) (slot q a n) (hand addr r a n) ≡ true)
  unfolding place
  dropped c a n = ground (
    arith,
    c.apart_at a n,
    (hand_known c).1,
    bytes_equal_iff addr a,
    bytes_equal_iff tx.from a,
    c.in_hand.1,
    hand-cons addr tx r a n,
    hand-eq addr r a n,
  )

  -- The first transaction on its way is forgotten.
  pub hand_to_void :
      IsConsistent p q all addr (tx ∷ r) → IsConsistent p q (remove_tx tx.txid all) addr r
  hand_to_void c = record {
    index =
        IsIndex-remove tx (place p q addr (tx ∷ r)) (place p q addr r) (λ h. get_tx h all)
          (λ h. get_tx h (remove_tx tx.txid all)) c.index (own_place c) (λ a n. (dropped c a n).0)
          (λ h. get_tx-remove_tx tx.txid h all);
    apart_at = λ a n. (dropped c a n).1;
    pending_held = c.pending_held;
    queue_held = c.queue_held;
    in_hand = c.in_hand.2;
  }
