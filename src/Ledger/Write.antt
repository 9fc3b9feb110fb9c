-- ===== src/Ledger/Write.antt =====
-- ledger/ledger.go, ledger/base.go, ledger/index.go and ledger/wrongStore: the ledger over one
-- database for its state, nonces, height and indices, and one for its blocks.
pub mod Heights
pub mod Items
pub mod Nonces
pub mod Blocks
pub mod Indices
use hnb_blockchain.Prelude.{
  ℕ, suc, ◌+◌, ◌%◌, ◌^◌, ◌++◌, ◌==◌, ltb, if◌then◌else◌, not, Option, none, some, List, [], ◌∷◌,
  get_elem?, length,
}
use hnb_blockchain.Prelude.Bytes.{Bytes, codes}
use hnb_blockchain.Prelude.Result.{Result, ok, err, Error, Action}
use hnb_blockchain.State.{
  Value, raw64, text, tx_index, vote_map, vote_records, StateItem, ItemState, deleted,
}
use hnb_blockchain.Ledger.Store.{KvStore, Cache}
use hnb_blockchain.Ledger.Types.{Block, Transaction, NonceItem, Backend}
use hnb_blockchain.Ledger.StateStore
use hnb_blockchain.Ledger.NonceStore
use hnb_blockchain.Ledger.NonceStore.{number_of}
use hnb_blockchain.Ledger.BlockStore

unfoldable pub height_key : Bytes
height_key = codes "height"

unfoldable pub index_key : Bytes → Bytes
index_key txid = codes "index" ++ txid

unfoldable pub wrong_key : Bytes → Bytes
wrong_key txid = codes "wrong" ++ txid

-- A nil slice is stored as an empty one.
abbrev pub or_empty : Option Value → Value
or_empty none = text []
or_empty (some v) = v

module _ (b : Backend) where
  -- `ledgerHandler`: the database that the stores share, the blocks, and the two caches.
  pub record LedgerHandler : Type 0 where
    pub db : b.db.Db
    pub blocks : BlockStore.BlockStore b.block_db b.blocks
    pub states : b.states.Entries
    pub nonces : b.nonces.Entries

  abbrev pub state_store : LedgerHandler → StateStore.StateStore b.db b.states
  state_store lh = record { cache = lh.states; store = lh.db }

  abbrev pub with_states : StateStore.StateStore b.db b.states → LedgerHandler → LedgerHandler
  with_states ss lh = record lh { db = ss.store; states = ss.cache }

  abbrev pub nonce_store : LedgerHandler → NonceStore.NonceStore b.db b.nonces
  nonce_store lh = record { cache = lh.nonces; store = lh.db }

  abbrev pub with_nonces : NonceStore.NonceStore b.db b.nonces → LedgerHandler → LedgerHandler
  with_nonces bc lh = record lh { db = bc.store; nonces = bc.cache }

  unfoldable pub get_block_height : LedgerHandler → ℕ
  get_block_height lh = number_of (b.db.get height_key lh.db)

  unfoldable pub set_block_height : ℕ → LedgerHandler → LedgerHandler
  set_block_height height lh = record lh { db = b.db.put height_key (raw64 height) lh.db }

  -- One item of a change set, by its mark.
  unfoldable pub set_marked : ItemState → StateItem → LedgerHandler → LedgerHandler
  set_marked deleted v lh =
      with_states (StateStore.delete_state b.db b.states v.chain_id v.key (state_store lh)) lh
  set_marked _ v lh =
      with_states
        (StateStore.set_state b.db b.states v.chain_id v.key (or_empty v.value) (state_store lh)) lh

  unfoldable pub set_item : StateItem → LedgerHandler → LedgerHandler
  unfolding set_marked
  set_item v lh = set_marked v.state v lh

  unfoldable pub set_items : List StateItem → LedgerHandler → LedgerHandler
  unfolding set_item
  set_items [] lh = lh
  set_items (v ∷ vs) lh = set_items vs (set_item v lh)

  -- `SetContractState`. The batch that it opens stays empty: the stores write at once.
  unfoldable pub set_contract_state : List StateItem → LedgerHandler → LedgerHandler
  unfolding set_items
  set_contract_state si lh = set_items si lh

  unfoldable pub get_contract_state : Bytes → Bytes → LedgerHandler → Option Value
  get_contract_state chain_id key lh =
      StateStore.get_state b.db b.states chain_id key (state_store lh)

  -- The loop of `SetHashIndex` from the transaction `i` on.
  unfoldable pub set_indices : ℕ → ℕ → List Transaction → LedgerHandler → LedgerHandler
  set_indices block_num i [] lh = lh
  set_indices block_num i (v ∷ txs) lh =
      set_indices block_num (i + 1) txs
        (record lh { db = b.db.put (index_key v.txid) (tx_index block_num (i % 2 ^ 32)) lh.db })

  unfoldable pub set_hash_index : Block → LedgerHandler → LedgerHandler
  unfolding set_indices
  set_hash_index block lh = set_indices block.header.block_num 0 block.txs lh

  unfoldable pub set_nonces : List NonceItem → LedgerHandler → LedgerHandler
  set_nonces [] lh = lh
  set_nonces (v ∷ vs) lh =
      set_nonces vs
        (with_nonces (NonceStore.set_nonce b.db b.nonces v.key v.nonce (nonce_store lh)) lh)

  unfoldable pub get_nonce : Bytes → LedgerHandler → ℕ
  get_nonce address lh = NonceStore.get_nonce b.db b.nonces address (nonce_store lh)

  -- `WriteLedger` behind its guard, in the order of its writes.
  unfoldable pub write_all : Block → List StateItem → List NonceItem → LedgerHandler → LedgerHandler
  write_all block state nonce lh = set_nonces nonce (
      set_hash_index block (
        set_block_height ((block.header.block_num + 1) % 2 ^ 64) (
          set_items state
            (record lh { blocks = BlockStore.write_block b.block_db b.blocks block lh.blocks }))))

  unfoldable pub write_ledger :
      Block → List StateItem → List NonceItem → Action LedgerHandler (Unit {0})
  unfolding write_all
  write_ledger block state nonce lh =
      if block.header.block_num == get_block_height lh
      then (ok tt, write_all block state nonce lh)
      else (err Error.height_invalid, lh)

  unfoldable pub set_wrong_index : Bytes → Bytes → LedgerHandler → LedgerHandler
  set_wrong_index txid reason lh = record lh { db = b.db.put (wrong_key txid) (text reason) lh.db }

  unfoldable pub get_block : ℕ → LedgerHandler → Option Block
  get_block blk_num lh = BlockStore.get_block b.block_db b.blocks blk_num lh.blocks

  -- `GetTransaction`: `offset + 1` is computed in 32 bits.
  unfoldable pub get_transaction : ℕ → ℕ → LedgerHandler → Option Transaction
  get_transaction blk_num offset lh = elim (get_block blk_num lh) [
    | none ↦ none
    | some blk ↦
        if ltb (length blk.txs % 2 ^ 32) ((offset + 1) % 2 ^ 32)
        then none
        else get_elem? blk.txs offset
  ]

  -- `FindHashIndex`: the place of a transaction.
  unfoldable pub find_hash_index : Bytes → LedgerHandler → Result (Option (ℕ × ℕ))
  find_hash_index txid lh = elim (b.db.get (index_key txid) lh.db) [
    | none ↦ ok none
    | some v ↦ elim v [ tx_index n i ↦ ok (some (n, i)) | _ ↦ err Error.bad_document ]
  ]
