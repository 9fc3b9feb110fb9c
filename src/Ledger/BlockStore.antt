-- ===== src/Ledger/BlockStore.antt =====
-- ledger/blockStore: the blocks by number, through a cache of fifty over their own database.
use hnb_blockchain.Prelude.{ℕ, ◌^◌, ◌<◌, ◌≡◌, Option, none, some, if◌then◌else◌, arith, ◌==◌}
use hnb_blockchain.Prelude.Bytes.{be64, be64_injective, bytes_equal, bytes_equal_iff}
use hnb_blockchain.Ledger.Store.{KvStore, Cache, or_else, or_else-of_coherent}
use hnb_blockchain.Ledger.Types.{Block}

module _ (db : KvStore Block) (blocks : Cache ℕ Block) where
  pub record BlockStore : Type 0 where
    pub cache : blocks.Entries
    pub store : db.Db

  unfoldable pub write_block : Block → BlockStore → BlockStore
  write_block block bc = record {
    cache = blocks.set block.header.block_num block bc.cache;
    store = db.put (be64 block.header.block_num) block bc.store;
  }

  -- `Remove` of an entry that is not there does nothing, so the test before it is left out.
  unfoldable pub rollback_block : ℕ → BlockStore → BlockStore
  rollback_block blk_num bc = record {
    cache = blocks.remove blk_num bc.cache;
    store = db.delete (be64 blk_num) bc.store;
  }

  -- The JSON of a missing block is empty, which does not decode: `none`.
  unfoldable pub get_block : ℕ → BlockStore → Option Block
  get_block blk_num bc = or_else (blocks.get blk_num bc.cache) (db.get (be64 blk_num) bc.store)

  unfoldable pub IsCoherent : BlockStore → Type 0
  IsCoherent bc =
      (n : ℕ) (b : Block)
      → n < 2 ^ 64
      → blocks.get n bc.cache ≡ some b
      → db.get (be64 n) bc.store ≡ some b

  write_block-IsCoherent :
      (block : Block) (bc : BlockStore)
      → block.header.block_num < 2 ^ 64
      → IsCoherent bc
      → IsCoherent (write_block block bc)
  unfolding write_block IsCoherent
  write_block-IsCoherent block bc fits h n b lt hit = ground (
    arith,
    bytes_equal_iff (be64 block.header.block_num) (be64 n),
    be64_injective block.header.block_num n,
    db.get-put (be64 block.header.block_num) (be64 n) block bc.store,
    blocks.get-set_self block.header.block_num block b bc.cache,
    blocks.get-set_ne block.header.block_num n block b bc.cache,
    h n b,
  )

  pub get_block-eq-get :
      (n : ℕ) (bc : BlockStore)
      → n < 2 ^ 64
      → IsCoherent bc
      → get_block n bc ≡ db.get (be64 n) bc.store
  unfolding get_block IsCoherent
  get_block-eq-get n bc lt h = or_else-of_coherent _ _ (λ v. h n v lt)

  store_write :
      (n : ℕ) (block : Block) (bc : BlockStore)
      → db.get (be64 n) (write_block block bc).store ≡ (
          if bytes_equal (be64 block.header.block_num) (be64 n)
          then some block
          else db.get (be64 n) bc.store)
  unfolding write_block
  store_write n block bc = db.get-put (be64 block.header.block_num) (be64 n) block bc.store

  -- A block that is written is read back under its number, and every other block stays as it was.
  pub get_block-write_block :
      (block : Block) (bc : BlockStore) (n : ℕ)
      → block.header.block_num < 2 ^ 64
      → n < 2 ^ 64
      → IsCoherent bc
      → get_block n (write_block block bc)
        ≡ (if n == block.header.block_num then some block else get_block n bc)
  get_block-write_block block bc n fits lt h = ground (
    arith,
    get_block-eq-get n (write_block block bc) lt (write_block-IsCoherent block bc fits h),
    get_block-eq-get n bc lt h,
    store_write n block bc,
    bytes_equal_iff (be64 block.header.block_num) (be64 n),
    be64_injective block.header.block_num n,
  )

  rollback_block-IsCoherent :
      (k : ℕ) (bc : BlockStore) → k < 2 ^ 64 → IsCoherent bc → IsCoherent (rollback_block k bc)
  unfolding rollback_block IsCoherent
  rollback_block-IsCoherent k bc fits h n b lt hit = ground (
    arith,
    bytes_equal_iff (be64 k) (be64 n),
    be64_injective k n,
    db.get-delete (be64 k) (be64 n) bc.store,
    blocks.get-remove_self k bc.cache,
    blocks.get-remove k n b bc.cache,
    h n b,
  )

  store_rollback :
      (n k : ℕ) (bc : BlockStore)
      → db.get (be64 n) (rollback_block k bc).store
        ≡ (if bytes_equal (be64 k) (be64 n) then none else db.get (be64 n) bc.store)
  unfolding rollback_block
  store_rollback n k bc = db.get-delete (be64 k) (be64 n) bc.store

  -- Where the cache agrees with the database, a rolled back block is gone, and every other block
  -- stays as it was.
  pub get_block-rollback_block :
      (k : ℕ) (bc : BlockStore) (n : ℕ)
      → k < 2 ^ 64
      → n < 2 ^ 64
      → IsCoherent bc
      → get_block n (rollback_block k bc) ≡ (if n == k then none else get_block n bc)
  get_block-rollback_block k bc n fits lt h = ground (
    arith,
    get_block-eq-get n (rollback_block k bc) lt (rollback_block-IsCoherent k bc fits h),
    get_block-eq-get n bc lt h,
    store_rollback n k bc,
    bytes_equal_iff (be64 k) (be64 n),
    be64_injective k n,
  )
