-- ===== src/Ledger/Write/Indices.antt =====
-- A transaction of an accepted block is found by its identifier.
use hnb_blockchain.Prelude.{
  ℕ, zero, suc, ◌+◌, ◌-◌, ◌%◌, ◌^◌, ◌<◌, ◌≤◌, ◌≡◌, ◌∙◌, ap, refl, arith, true, false, Option, some,
  none, List, [], ◌∷◌, if◌then◌else◌, length, get_elem?,
}
use hnb_blockchain.Prelude.Bytes.{Bytes, bytes_equal, bytes_equal_prefix, bytes_equal_sound, codes}
use hnb_blockchain.Prelude.Result.{ok}
use hnb_blockchain.State.{Value, StateItem, tx_index}
use hnb_blockchain.Ledger.Types.{Block, Transaction, NonceItem, Backend}
use hnb_blockchain.Ledger.NonceStore.{nonce_key, set_nonce}
use hnb_blockchain.Ledger.BlockStore.{IsCoherent}
use hnb_blockchain.Ledger.Write.Blocks.{get_block-write_ledger}
use hnb_blockchain.Ledger.Write.{
  LedgerHandler, index_key, set_indices, set_hash_index, set_nonces, write_all, write_ledger,
  find_hash_index, get_transaction, get_block,
}

-- The place of the last transaction with the identifier `t`, where the list begins at the place `i`.
abbrev pub or_place : Option ℕ → Option ℕ → Option ℕ
or_place (some j) here = some j
or_place none here = here

abbrev pub last_place : Bytes → ℕ → List Transaction → Option ℕ
last_place t i [] = none
last_place t i (v ∷ vs) =
    or_place (last_place t (i + 1) vs) (if bytes_equal v.txid t then some i else none)

abbrev place_value : ℕ → Option ℕ → Option Value → Option Value
place_value n (some j) old = some (tx_index n (j % 2 ^ 32))
place_value n none old = old

place_value-or :
    (n : ℕ) (a h : Option ℕ) (old : Option Value)
    → place_value n a (place_value n h old) ≡ place_value n (or_place a h) old
place_value-or n (some j) h old = refl
place_value-or n none h old = refl

nonces_apart : (a t : Bytes) → bytes_equal (nonce_key a) (index_key t) ≡ false
unfolding bytes_equal nonce_key index_key
nonces_apart a t = refl

same_index : (s t : Bytes) → bytes_equal (index_key s) (index_key t) ≡ bytes_equal s t
unfolding index_key
same_index s t = bytes_equal_prefix (codes "index") s t

in_range :
    (txs : List Transaction) (j : ℕ) (v : Transaction) → get_elem? txs j ≡ some v → j < length txs
in_range [] j v h = absurd (cc)
in_range (x ∷ xs) zero v h = omega arith
in_range (x ∷ xs) (suc j) v h = omega (arith, in_range xs j v h)

module _ (b : Backend) where
  index_put :
      (n i : ℕ) (s t : Bytes) (d : b.db.Db)
      → b.db.get (index_key t) (b.db.put (index_key s) (tx_index n (i % 2 ^ 32)) d)
        ≡ place_value n (if bytes_equal s t then some i else none) (b.db.get (index_key t) d)
  index_put n i s t d =
      ground (
        arith,
        same_index s t,
        b.db.get-put (index_key s) (index_key t) (tx_index n (i % 2 ^ 32)) d,
      )

  index_after :
      (n i : ℕ) (t : Bytes) (txs : List Transaction) (lh : LedgerHandler b)
      → b.db.get (index_key t) (set_indices b n i txs lh).db
        ≡ place_value n (last_place t i txs) (b.db.get (index_key t) lh.db)
  unfolding set_indices
  index_after n i t [] lh = refl
  index_after n i t (v ∷ txs) lh =
      index_after n (i + 1) t txs _
      ∙ ap (place_value n (last_place t (i + 1) txs)) (index_put n i v.txid t lh.db)
      ∙ place_value-or n (last_place t (i + 1) txs) _ _

  index_in :
      (n : ℕ) (t : Bytes) (txs : List Transaction) (lh : LedgerHandler b) (j : ℕ)
      → last_place t 0 txs ≡ some j
      → b.db.get (index_key t) (set_indices b n 0 txs lh).db ≡ some (tx_index n (j % 2 ^ 32))
  index_in n t txs lh j there =
      index_after n 0 t txs lh ∙ ap (λ o. place_value n o (b.db.get (index_key t) lh.db)) there

  index_kept :
      (k t : Bytes) (v : Value) (d : b.db.Db)
      → bytes_equal k (index_key t) ≡ false
      → b.db.get (index_key t) (b.db.put k v d) ≡ b.db.get (index_key t) d
  index_kept k t v d h = ground (arith, b.db.get-put k (index_key t) v d)

  index_after_nonces :
      (t : Bytes) (vs : List NonceItem) (lh : LedgerHandler b)
      → b.db.get (index_key t) (set_nonces b vs lh).db ≡ b.db.get (index_key t) lh.db
  unfolding set_nonces set_nonce
  index_after_nonces t [] lh = refl
  index_after_nonces t (v ∷ vs) lh =
      index_after_nonces t vs _ ∙ index_kept (nonce_key v.key) t _ lh.db (nonces_apart v.key t)

  index_written :
      (t : Bytes) (block : Block) (si : List StateItem) (ni : List NonceItem) (lh : LedgerHandler b)
      (j : ℕ)
      → last_place t 0 block.txs ≡ some j
      → b.db.get (index_key t) (write_all b block si ni lh).db
        ≡ some (tx_index block.header.block_num (j % 2 ^ 32))
  unfolding write_all set_hash_index
  index_written t block si ni lh j there =
      index_after_nonces t ni _ ∙ index_in block.header.block_num t block.txs _ j there

from_start : (j : ℕ) → j ≡ j - 0
from_start j = omega arith

place_in :
    (t : Bytes) (i j : ℕ) (txs : List Transaction)
    → last_place t i txs ≡ some j
    → (v : Transaction) × (get_elem? txs (j - i) ≡ some v) × (v.txid ≡ t) × (i ≤ j)
place_in t i j [] h = absurd (cc)
place_in t i j (v ∷ vs) h = later (last_place t (i + 1) vs) refl h (λ e. place_in t (i + 1) j vs e)
  where
    later :
        (o : Option ℕ)
        → last_place t (i + 1) vs ≡ o
        → or_place o (if bytes_equal v.txid t then some i else none) ≡ some j
        → (last_place t (i + 1) vs ≡ some j
            → (w : Transaction) × (get_elem? vs (j - (i + 1)) ≡ some w)
              × (w.txid ≡ t)
              × (i + 1 ≤ j))
        → (w : Transaction) × (get_elem? (v ∷ vs) (j - i) ≡ some w) × (w.txid ≡ t) × (i ≤ j)
    later (some k) e h ih =
        let (w, at, same, le) = ih (e ∙ h) in (w, rw (shift le) at, same, omega (arith, le))
      where
        shift : i + 1 ≤ j → j - i ≡ suc (j - (i + 1))
        shift le = omega (arith, le)
    later none e h ih =
        let (same, found) = here h in
        (v, rw (gap same) refl, bytes_equal_sound v.txid t found, omega (arith, same))
      where
        here :
            or_place none (if bytes_equal v.txid t then some i else none) ≡ some j
            → (i ≡ j) × (bytes_equal v.txid t ≡ true)
        here h = (ground arith, ground arith)

        gap : i ≡ j → j - i ≡ 0
        gap same = omega (arith, same)

module _ (b : Backend) where
  -- `FindHashIndex` of a transaction's identifier after the block is written.
  find-written :
      (t : Bytes) (block : Block) (si : List StateItem) (ni : List NonceItem) (lh : LedgerHandler b)
      (j : ℕ)
      → (write_ledger b block si ni lh).0 ≡ ok tt
      → last_place t 0 block.txs ≡ some j
      → find_hash_index b t (write_ledger b block si ni lh).1
        ≡ ok (some (block.header.block_num, j % 2 ^ 32))
  unfolding write_ledger find_hash_index
  find-written t block si ni lh j accepted there =
      ground (arith, accepted, index_written b t block si ni lh j there)

  get_transaction-stored :
      (block : Block) (lh : LedgerHandler b) (j : ℕ) (v : Transaction)
      → length block.txs < 2 ^ 32
      → get_block b block.header.block_num lh ≡ some block
      → get_elem? block.txs j ≡ some v
      → get_transaction b block.header.block_num j lh ≡ some v
  unfolding get_transaction
  get_transaction-stored block lh j v small stored at =
      ground (arith, stored, at, in_range block.txs j v at)

  -- Where numbers fit, a block has fewer than 2 ^ 32 transactions and the cache of blocks agrees with
  -- its database: after a block is accepted, the identifier of each of its transactions is found at
  -- the last place where it stands in the block, and the transaction that is read back from there
  -- has that identifier.
  pub find_hash_index-get_transaction :
      (t : Bytes) (block : Block) (si : List StateItem) (ni : List NonceItem) (lh : LedgerHandler b)
      (j : ℕ)
      → block.header.block_num < 2 ^ 64
      → length block.txs < 2 ^ 32
      → IsCoherent b.block_db b.blocks lh.blocks
      → (write_ledger b block si ni lh).0 ≡ ok tt
      → last_place t 0 block.txs ≡ some j
      → let (r, lh') = write_ledger b block si ni lh in
        (find_hash_index b t lh' ≡ ok (some (block.header.block_num, j)))
        × ((v : Transaction) × (get_transaction b block.header.block_num j lh' ≡ some v)
            × (v.txid ≡ t))
  find_hash_index-get_transaction t block si ni lh j fits small coherent accepted there =
      let (v, at_gap, same, le) = place_in t 0 j block.txs there in
      let at = ap (get_elem? block.txs) (from_start j) ∙ at_gap in
      let found = find-written t block si ni lh j accepted there in
      let stored =
        get_block-write_ledger b block si ni lh block.header.block_num fits fits coherent
          accepted in
      (
        found
            ∙ ap (λ i. ok (some (block.header.block_num, i)))
                (ground (arith, in_range block.txs j v at)),
        (v, get_transaction-stored block _ j v small (stored ∙ ground arith) at, same),
      )
