-- ===== src/Ledger/Write/Blocks.antt =====
-- The block that `WriteLedger` stores.
use hnb_blockchain.Prelude.{
  ℕ, ◌+◌, ◌^◌, ◌<◌, ◌==◌, ◌≡◌, ◌∙◌, refl, arith, List, [], ◌∷◌, some, if◌then◌else◌,
}
use hnb_blockchain.Prelude.Result.{ok}
use hnb_blockchain.State.{StateItem, ItemState, deleted}
use hnb_blockchain.Ledger.Types.{Block, Transaction, NonceItem, Backend}
use hnb_blockchain.Ledger.BlockStore.{write_block, IsCoherent, get_block-write_block}
use hnb_blockchain.Ledger.Write.{
  LedgerHandler, set_marked, set_items, set_indices, set_hash_index, set_block_height, set_nonces,
  write_all, write_ledger, get_block,
}

module _ (b : Backend) where
  set_marked-blocks :
      (s : ItemState) (v : StateItem) (lh : LedgerHandler b)
      → (set_marked b s v lh).blocks ≡ lh.blocks
  unfolding set_marked
  set_marked-blocks deleted v lh = refl
  set_marked-blocks _ v lh = refl

  set_items-blocks :
      (vs : List StateItem) (lh : LedgerHandler b) → (set_items b vs lh).blocks ≡ lh.blocks
  unfolding set_items
  set_items-blocks [] lh = refl
  set_items-blocks (v ∷ vs) lh = set_items-blocks vs _ ∙ set_marked-blocks v.state v lh

  set_indices-blocks :
      (n i : ℕ) (txs : List Transaction) (lh : LedgerHandler b)
      → (set_indices b n i txs lh).blocks ≡ lh.blocks
  unfolding set_indices
  set_indices-blocks n i [] lh = refl
  set_indices-blocks n i (v ∷ txs) lh = set_indices-blocks n (i + 1) txs _

  set_nonces-blocks :
      (vs : List NonceItem) (lh : LedgerHandler b) → (set_nonces b vs lh).blocks ≡ lh.blocks
  unfolding set_nonces
  set_nonces-blocks [] lh = refl
  set_nonces-blocks (v ∷ vs) lh = set_nonces-blocks vs _

  write_all-blocks :
      (block : Block) (si : List StateItem) (ni : List NonceItem) (lh : LedgerHandler b)
      → (write_all b block si ni lh).blocks ≡ write_block b.block_db b.blocks block lh.blocks
  unfolding write_all set_hash_index set_block_height
  write_all-blocks block si ni lh =
      set_nonces-blocks ni _
      ∙ set_indices-blocks block.header.block_num 0 block.txs _
      ∙ set_items-blocks si _

  -- Where the cache of blocks agrees with its database and numbers fit in 64 bits, a block that
  -- `WriteLedger` accepts is read back under its number, and no other block changes.
  pub get_block-write_ledger :
      (block : Block) (si : List StateItem) (ni : List NonceItem) (lh : LedgerHandler b) (n : ℕ)
      → block.header.block_num < 2 ^ 64
      → n < 2 ^ 64
      → IsCoherent b.block_db b.blocks lh.blocks
      → (write_ledger b block si ni lh).0 ≡ ok tt
      → get_block b n (write_ledger b block si ni lh).1
        ≡ (if n == block.header.block_num then some block else get_block b n lh)
  unfolding write_ledger get_block
  get_block-write_ledger block si ni lh n fits lt h accepted = ground (
    arith,
    write_all-blocks block si ni lh,
    get_block-write_block b.block_db b.blocks block lh.blocks n fits lt h,
  )
