-- ===== src/Txpool/Pool/Proposals.antt =====
-- txpool/txpoolServer.go: the transactions that the pool gives for a block.
use hnb_blockchain.Prelude.{
  ℕ, zero, suc, ◌+◌, ◌==◌, ◌≡◌, refl, ap, sym, ◌∙◌, subst, false, none, some, List, [], ◌∷◌, ◌++◌,
  take, arith,
}
use hnb_blockchain.Prelude.Bytes.{Bytes, bytes_equal_iff}
use hnb_blockchain.Prelude.Assoc.{Dict, lookup, IsDistinct}
use hnb_blockchain.Ledger.Types.{Transaction}
use hnb_blockchain.Txpool.Ordered.{IsAscending, find, find-none}
use hnb_blockchain.Txpool.TxList
use hnb_blockchain.Txpool.TxList.{TxList}
use hnb_blockchain.Txpool.TxList.Laws.{Held, get-Held, flatten-Held}
use hnb_blockchain.Txpool.Accounts.{get_tx}
use hnb_blockchain.Txpool.Pool.{TxPool}
use hnb_blockchain.Txpool.Pool.Reset.{flatten_lists}
use hnb_blockchain.Txpool.Pool.Queries
use hnb_blockchain.Txpool.Pool.Events.{collect, all_txs, get_txs_from_tx_pool}
use hnb_blockchain.Txpool.Pool.Slots.{slot, first, hand}
use hnb_blockchain.Txpool.Pool.Consistent.{place}
use hnb_blockchain.Txpool.Pool.Consistent.Placing.{Sound}
use hnb_blockchain.Txpool.Pool.Consistent.Taking.{slot-found}

abbrev pub All {ℓ κ} : {A : Type ℓ} → (A → Type κ) → List A → Type κ
All P [] = Unit
All P (x ∷ l) = P x × All P l

All-append : {A : Type 0} (P : A → Type 0) (l m : List A) → All P l → All P m → All P (l ++ m)
All-append P [] m h k = k
All-append P (x ∷ l) m h k = (h.0, All-append P l m h.1 k)

All-map : {A : Type 0} (P Q : A → Type 0) (l : List A) → ((x : A) → P x → Q x) → All P l → All Q l
All-map P Q [] f h = tt
All-map P Q (x ∷ l) f h = (f x h.0, All-map P Q l f h.1)

All-take : {A : Type 0} (P : A → Type 0) (n : ℕ) (l : List A) → All P l → All P (take n l)
All-take P zero l h = tt
All-take P (suc n) [] h = tt
All-take P (suc n) (x ∷ l) h = (h.0, All-take P n l h.1)

-- The loop stops where the count is met.
collect-take : (k n : ℕ) (l : List Transaction) → collect (n + suc k) l n ≡ take (suc k) l
unfolding collect
collect-take k n [] = refl
collect-take zero n (x ∷ l) = ground arith
collect-take (suc k) n (x ∷ l) =
    let e : n + suc (suc k) ≡ (n + 1) + suc k = omega arith in
    let f : ((n + 1) == (n + suc (suc k))) ≡ false = ground arith in
    rw f (
      ap (λ (m : ℕ). x ∷ collect m l (n + 1)) e
      ∙ ap (λ (t : List Transaction). x ∷ t) (collect-take k (n + 1) l))

collect-all : (n : ℕ) (l : List Transaction) → collect 0 l n ≡ l
unfolding collect
collect-all n [] = refl
collect-all n (x ∷ l) = ground (arith, collect-all (n + 1) l)

find-later :
    (x y : Transaction) (l : List Transaction)
    → IsAscending (suc x.nonce_value) l
    → find y.nonce_value l ≡ some y
    → find y.nonce_value (x ∷ l) ≡ some y
unfolding find
find-later x y l h e = ground (arith, e, find-none y.nonce_value (suc x.nonce_value) l)

find-itself : (x : Transaction) (l : List Transaction) → find x.nonce_value (x ∷ l) ≡ some x
unfolding find
find-itself x l = ground arith

-- Each transaction of an ordered list is found by its nonce.
members :
    (lo : ℕ) (l : List Transaction) → IsAscending lo l → All (λ x. find x.nonce_value l ≡ some x) l
members lo [] h = tt
members lo (x ∷ l) h = (
  find-itself x l,
  All-map (λ y. find y.nonce_value l ≡ some y) (λ y. find y.nonce_value (x ∷ l) ≡ some y) l
      (λ y e. find-later x y l h.1 e) (members (suc x.nonce_value) l h.1),
)

-- A transaction that is pending under its own account and nonce, and known.
pub record IsPending (pool : TxPool) (tx : Transaction) : Type 0 where
  pub stands : slot pool.pending tx.from tx.nonce_value ≡ some tx
  pub known : get_tx tx.txid pool.all ≡ some tx

pending_place :
    (p q : Dict TxList) (a b : Bytes) (n : ℕ) (tx : Transaction)
    → slot p b n ≡ some tx
    → place p q a [] b n ≡ some tx
unfolding place
pending_place p q a b n tx e = ap (λ o. first o (first (slot q b n) (hand a [] b n))) e

slot-IsPending :
    (a b : Bytes) (pool : TxPool) (tx : Transaction)
    → Sound pool a []
    → slot pool.pending b tx.nonce_value ≡ some tx
    → IsPending pool tx
slot-IsPending a b pool tx s e =
    let f =
      s.index.filed b tx.nonce_value tx
        (pending_place pool.pending pool.queue a b tx.nonce_value tx e) in
    record {
      stands = subst (λ (c : Bytes). slot pool.pending c tx.nonce_value ≡ some tx) (sym f.1) e;
      known = f.0;
    }

list-IsPending :
    (a b : Bytes) (pool : TxPool) (l : TxList) (txs : List Transaction)
    → Sound pool a []
    → lookup b pool.pending ≡ some l
    → Held l txs
    → All (IsPending pool) txs
list-IsPending a b pool l txs s e h =
    All-map (λ x. find x.nonce_value txs ≡ some x) (IsPending pool) txs
      (λ x f.
        slot-IsPending a b pool x s
          (slot-found b x.nonce_value l pool.pending e ∙ get-Held x.nonce_value h ∙ f))
      (members 0 txs h.holds.stores.ascending)

later_lookup :
    (k b : Bytes) (l x : TxList) (m : Dict TxList)
    → lookup k m ≡ none
    → lookup b m ≡ some x
    → lookup b ((k, l) ∷ m) ≡ some x
unfolding lookup
later_lookup k b l x m d e = ground (arith, d, e, bytes_equal_iff k b)

first_lookup : (k : Bytes) (l : TxList) (m : Dict TxList) → lookup k ((k, l) ∷ m) ≡ some l
unfolding lookup
first_lookup k l m = ground (arith, bytes_equal_iff k k)

entries-IsPending :
    (a : Bytes) (pool : TxPool) (m : Dict TxList)
    → Sound pool a []
    → IsDistinct m
    → ((b : Bytes) (l : TxList) → lookup b m ≡ some l → lookup b pool.pending ≡ some l)
    → All (IsPending pool) (all_txs (flatten_lists m).1)
unfolding flatten_lists
entries-IsPending a pool [] s d f = tt
entries-IsPending a pool ((k, l) ∷ m) s d f =
    let e = f k l (first_lookup k l m) in
    let h = s.pending_held.each k l e in
    All-append (IsPending pool) (TxList.flatten l).1 (all_txs (flatten_lists m).1)
      (subst (All (IsPending pool)) (sym (flatten-Held h.1).1)
        (list-IsPending a k pool l h.0 s e h.1))
      (entries-IsPending a pool m s d.1 (λ b x g. f b x (later_lookup k b l x m d.0 g)))

abbrev pub taken_of : ℕ → List Transaction → List Transaction
taken_of zero l = l
taken_of (suc k) l = take (suc k) l

collected : (limit : ℕ) (l : List Transaction) → collect limit l 0 ≡ taken_of limit l
collected zero l = collect-all 0 l
collected (suc k) l = ap (λ (m : ℕ). collect m l 0) (omega arith) ∙ collect-take k 0 l

All-taken :
    (P : Transaction → Type 0) (limit : ℕ) (l : List Transaction)
    → All P l
    → All P (taken_of limit l)
All-taken P zero l h = h
All-taken P (suc k) l h = All-take P (suc k) l h

-- What the pool gives for a block are the first transactions of the pending lists, as many as the limit
-- allows, and all of them where the limit is 0; and in a consistent pool each of them is pending under
-- its own account and nonce and known by its hash.
pub get_txs_from_tx_pool-pending :
    (limit : ℕ) (a : Bytes) (pool : TxPool)
    → Sound pool a []
    → ((get_txs_from_tx_pool limit pool).1 ≡ taken_of limit (all_txs (Queries.pending pool).1))
      × All (IsPending pool) (get_txs_from_tx_pool limit pool).1
unfolding get_txs_from_tx_pool Queries.pending
get_txs_from_tx_pool-pending limit a pool s =
    let txs = all_txs (flatten_lists pool.pending).1 in
    let e = collected limit txs in
    (
      e,
      subst (All (IsPending pool)) (sym e) (
          All-taken (IsPending pool) limit txs
            (entries-IsPending a pool pool.pending s s.pending_held.distinct (λ b l f. f))),
    )
