-- ===== src/Ledger/Write/Heights.antt =====
-- The height of the chain under `WriteLedger`: blocks are accepted in order, one for each height.
use hnb_blockchain.Prelude.{
  ℕ, ◌+◌, ◌%◌, ◌^◌, ◌≡◌, ◌≢◌, ◌∙◌, ap, refl, arith, false, List, [], ◌∷◌, some,
}
use hnb_blockchain.Prelude.Bytes.{Bytes, bytes_equal}
use hnb_blockchain.Prelude.Result.{ok, err, Error}
use hnb_blockchain.State.{Value, StateItem, raw64}
use hnb_blockchain.Ledger.Types.{Block, Transaction, NonceItem, Backend}
use hnb_blockchain.Ledger.NonceStore.{nonce_key, number_of, set_nonce}
use hnb_blockchain.Ledger.Write.{
  LedgerHandler, height_key, index_key, get_block_height, set_block_height, set_indices,
  set_hash_index, set_nonces, write_all, write_ledger,
}

index_apart : (t : Bytes) → bytes_equal (index_key t) height_key ≡ false
unfolding bytes_equal index_key height_key
index_apart t = refl

nonce_apart : (a : Bytes) → bytes_equal (nonce_key a) height_key ≡ false
unfolding bytes_equal nonce_key height_key
nonce_apart a = refl

module _ (b : Backend) where
  height_after_put :
      (k : Bytes) (v : Value) (d : b.db.Db)
      → bytes_equal k height_key ≡ false
      → b.db.get height_key (b.db.put k v d) ≡ b.db.get height_key d
  height_after_put k v d h = ground (arith, b.db.get-put k height_key v d)

  height_after_indices :
      (n i : ℕ) (txs : List Transaction) (lh : LedgerHandler b)
      → b.db.get height_key (set_indices b n i txs lh).db ≡ b.db.get height_key lh.db
  unfolding set_indices
  height_after_indices n i [] lh = refl
  height_after_indices n i (v ∷ txs) lh =
      height_after_indices n (i + 1) txs _
      ∙ height_after_put (index_key v.txid) _ lh.db (index_apart v.txid)

  height_after_nonces :
      (vs : List NonceItem) (lh : LedgerHandler b)
      → b.db.get height_key (set_nonces b vs lh).db ≡ b.db.get height_key lh.db
  unfolding set_nonces set_nonce
  height_after_nonces [] lh = refl
  height_after_nonces (v ∷ vs) lh =
      height_after_nonces vs _ ∙ height_after_put (nonce_key v.key) _ lh.db (nonce_apart v.key)

  height_of_put :
      (n : ℕ) (d : b.db.Db) → b.db.get height_key (b.db.put height_key (raw64 n) d) ≡ some (raw64 n)
  unfolding bytes_equal height_key
  height_of_put n d = b.db.get-put height_key height_key (raw64 n) d

  height_written :
      (block : Block) (si : List StateItem) (ni : List NonceItem) (lh : LedgerHandler b)
      → get_block_height b (write_all b block si ni lh) ≡ (block.header.block_num + 1) % 2 ^ 64
  unfolding get_block_height write_all set_hash_index set_block_height number_of
  height_written block si ni lh = ap number_of (
      height_after_nonces ni _
      ∙ height_after_indices block.header.block_num 0 block.txs _
      ∙ height_of_put _ _)

  -- A block is written exactly when its number is the height of the chain, which then grows by one, in
  -- 64 bits; any other block is refused, and the ledger stays as it was.
  pub write_ledger_in_order :
      (block : Block) (si : List StateItem) (ni : List NonceItem) (lh : LedgerHandler b)
      → (block.header.block_num ≡ get_block_height b lh
          → ((write_ledger b block si ni lh).0 ≡ ok tt)
            × (get_block_height b (write_ledger b block si ni lh).1
                ≡ (get_block_height b lh + 1) % 2 ^ 64))
        × (block.header.block_num ≢ get_block_height b lh
            → write_ledger b block si ni lh ≡ (err Error.height_invalid, lh))
  unfolding write_ledger
  write_ledger_in_order block si ni lh =
      (λ e. (ground arith, ground (arith, height_written block si ni lh)), λ ne. ground arith)
