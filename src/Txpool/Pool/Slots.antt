-- ===== src/Txpool/Pool/Slots.antt =====
-- txpool/tx_pool.go: where a transaction is in the pool, by its account and nonce.
use hnb_blockchain.Prelude.{
  ℕ, ◌==◌, ◌<◌, ◌^◌, if◌then◌else◌, ◌≡◌, sym, ◌∙◌, subst, Bool, true, false, Option, none, some,
  List, [], ◌∷◌, arith, inl, inr, Bool-cases,
}
use hnb_blockchain.Prelude.Bytes.{Bytes, bytes_equal, bytes_equal_iff}
use hnb_blockchain.Prelude.Assoc.{
  IsDistinct, insert-IsDistinct, erase-IsDistinct, Dict, lookup, insert, erase, lookup-insert,
  lookup-erase,
}
use hnb_blockchain.Ledger.Types.{Transaction}
use hnb_blockchain.Txpool.Ordered.{find}
use hnb_blockchain.Txpool.SortedMap
use hnb_blockchain.Txpool.TxList.{TxList}
use hnb_blockchain.Txpool.TxList.Laws.{Held}

abbrev pub in_list : ℕ → Option TxList → Option Transaction
in_list n none = none
in_list n (some l) = SortedMap.get n l.txs

-- The transaction of an account with a nonce, in a map of lists.
unfoldable pub slot : Dict TxList → Bytes → ℕ → Option Transaction
slot m a n = in_list n (lookup a m)

-- Transactions of the account `addr` that are on their way from one list to another.
unfoldable pub hand : Bytes → List Transaction → Bytes → ℕ → Option Transaction
hand addr r a n = if bytes_equal addr a then find n r else none

abbrev pub first : Option Transaction → Option Transaction → Option Transaction
first none y = y
first (some x) y = some x

-- At most one of the three holds a transaction.
abbrev pub apart : Option Transaction → Option Transaction → Option Transaction → Bool
apart none none z = true
apart none (some y) none = true
apart none (some y) (some z) = false
apart (some x) none none = true
apart (some x) none (some z) = false
apart (some x) (some y) z = false

-- Each transaction is known under its hash where it stands under its account and nonce, and the other
-- way round.
pub record IsIndex (w : Bytes → ℕ → Option Transaction) (all : Bytes → Option Transaction)
    : Type 0 where
  pub filed :
      (a : Bytes) (n : ℕ) (t : Transaction)
      → w a n ≡ some t
      → (all t.txid ≡ some t) × (t.from ≡ a) × (t.nonce_value ≡ n)
  pub listed :
      (h : Bytes) (t : Transaction)
      → all h ≡ some t
      → (t.txid ≡ h) × (w t.from t.nonce_value ≡ some t)

pub IsIndex-same :
    (w v : Bytes → ℕ → Option Transaction) (all : Bytes → Option Transaction)
    → ((a : Bytes) (n : ℕ) → w a n ≡ v a n)
    → IsIndex w all
    → IsIndex v all
IsIndex-same w v all e i = record {
  filed = λ a n t h. i.filed a n t (e a n ∙ h);
  listed = λ h t k. let p = i.listed h t k in (p.0, sym (e t.from t.nonce_value) ∙ p.1);
}

abbrev pub at_slot : Transaction → Bytes → ℕ → Bool
at_slot t a n = if bytes_equal t.from a then t.nonce_value == n else false

-- A new transaction with a new hash.
pub IsIndex-add :
    (t : Transaction) (w v : Bytes → ℕ → Option Transaction)
    (all known : Bytes → Option Transaction)
    → IsIndex w all
    → w t.from t.nonce_value ≡ none
    → all t.txid ≡ none
    → ((a : Bytes) (n : ℕ) → v a n ≡ (if at_slot t a n then some t else w a n))
    → ((h : Bytes) → known h ≡ (if bytes_equal t.txid h then some t else all h))
    → IsIndex v known
IsIndex-add t w v all known i f g e k = record {
  filed = λ a n u h. ground (
    arith,
    i.filed a n u,
    e a n,
    k u.txid,
    g,
    bytes_equal_iff t.txid u.txid,
    bytes_equal_iff t.from a,
    h,
  );
  listed = λ h u p. ground (
    arith,
    i.listed h u,
    k h,
    e u.from u.nonce_value,
    f,
    bytes_equal_iff t.txid h,
    bytes_equal_iff t.from u.from,
    p,
  );
}

-- A known transaction is forgotten.
pub IsIndex-remove :
    (t : Transaction) (w v : Bytes → ℕ → Option Transaction)
    (all known : Bytes → Option Transaction)
    → IsIndex w all
    → w t.from t.nonce_value ≡ some t
    → ((a : Bytes) (n : ℕ) → v a n ≡ (if at_slot t a n then none else w a n))
    → ((h : Bytes) → known h ≡ (if bytes_equal t.txid h then none else all h))
    → IsIndex v known
IsIndex-remove t w v all known i f e k = record {
  filed = λ a n u h. ground (
    arith,
    i.filed a n u,
    i.filed t.from t.nonce_value t f,
    e a n,
    k u.txid,
    bytes_equal_iff t.txid u.txid,
    bytes_equal_iff t.from a,
    h,
  );
  listed = λ h u p. ground (
    arith,
    i.listed h u,
    i.filed t.from t.nonce_value t f,
    k h,
    e u.from u.nonce_value,
    bytes_equal_iff t.txid h,
    bytes_equal_iff t.from u.from,
    p,
  );
}

pub slot-insert :
    (k a : Bytes) (n : ℕ) (l : TxList) (m : Dict TxList)
    → slot (insert k l m) a n ≡ (if bytes_equal k a then SortedMap.get n l.txs else slot m a n)
unfolding slot
slot-insert k a n l m = ground (arith, lookup-insert k a l m)

pub slot-erase :
    (k a : Bytes) (n : ℕ) (m : Dict TxList)
    → slot (erase k m) a n ≡ (if bytes_equal k a then none else slot m a n)
unfolding slot
slot-erase k a n m = ground (arith, lookup-erase k a m)

-- Distinct nonces, each a `uint64`.
abbrev pub IsHand : List Transaction → Type 0
IsHand [] = Unit
IsHand (x ∷ r) = (x.nonce_value < 2 ^ 64) × (find x.nonce_value r ≡ none) × IsHand r

-- Each account has one list, which holds some ordered transactions and is strict or not as all are.
pub record AreHeld (b : Bool) (m : Dict TxList) : Type 0 where
  pub distinct : IsDistinct m
  pub each :
      (a : Bytes) (l : TxList)
      → lookup a m ≡ some l
      → (txs : List Transaction) × Held l txs × (l.strict ≡ b)

module _ (b : Bool) (k : Bytes) (m : Dict TxList) (hs : AreHeld b m) where
  inserted_each :
      (l : TxList) (txs : List Transaction)
      → Held l txs
      → l.strict ≡ b
      → (a : Bytes) (x : TxList) → lookup a (insert k l m) ≡ some x
      → (txs : List Transaction) × Held x txs × (x.strict ≡ b)
  inserted_each l txs h t a x e = elim (Bool-cases (bytes_equal k a)) [
    | inl p ↦
        let e' : l ≡ x = ground (arith, lookup-insert k a l m, e, p) in
        (txs, subst (λ (y : TxList). Held y txs) e' h, subst (λ (y : TxList). y.strict ≡ b) e' t)
    | inr f ↦ hs.each a x (ground (arith, lookup-insert k a l m, e, f))
  ]

pub insert-AreHeld :
    (b : Bool) (k : Bytes) (l : TxList) (txs : List Transaction) (m : Dict TxList)
    → Held l txs
    → l.strict ≡ b
    → AreHeld b m
    → AreHeld b (insert k l m)
insert-AreHeld b k l txs m h t hs = record {
  distinct = insert-IsDistinct k l m hs.distinct;
  each = inserted_each b k m hs l txs h t;
}

pub erase-AreHeld : (b : Bool) (k : Bytes) (m : Dict TxList) → AreHeld b m → AreHeld b (erase k m)
erase-AreHeld b k m hs = record {
  distinct = erase-IsDistinct k m hs.distinct;
  each = λ a x e. hs.each a x (ground (arith, lookup-erase k a m, e));
}
