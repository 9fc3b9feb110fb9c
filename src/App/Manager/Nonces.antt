-- ===== src/App/Manager/Nonces.antt =====
-- The nonces that `BlockProcess` leaves in the ledger.
use hnb_blockchain.Prelude.{
  ℕ, ◌+◌, ◌%◌, ◌^◌, ◌≡◌, ◌∙◌, ap, refl, arith, List, [], ◌∷◌, map, false, if◌then◌else◌,
}
use hnb_blockchain.Prelude.Bytes.{Bytes, bytes_equal}
use hnb_blockchain.Prelude.Result.{Result, ok, err, Error}
use hnb_blockchain.State.{Value, StateItem, ItemState, deleted}
use hnb_blockchain.App.Manager.{
  AppManager, Run, run_tx, run_with, run_txs, Handle, settle, finish, conclude, nonce_item,
  get_handler, start, block_process, all_states,
}
use hnb_blockchain.App.Manager.Digest.{run_txs-nonces}
use hnb_blockchain.Contract.Handler.{ContractInf}
use hnb_blockchain.Ledger.Types.{Transaction, Block, NonceItem, Backend}
use hnb_blockchain.Ledger.NonceStore.{nonce_key, number_of}
use hnb_blockchain.Ledger.NonceStore
use hnb_blockchain.Ledger.BlockStore.{write_block}
use hnb_blockchain.Ledger.StateStore.{state_key, set_state, delete_state}
use hnb_blockchain.Ledger.Write.{
  LedgerHandler, height_key, index_key, wrong_key, set_block_height, set_indices, set_hash_index,
  set_marked, set_item, set_items, set_wrong_index, write_all, write_ledger, get_nonce,
}
use hnb_blockchain.Ledger.Write.Nonces.{last_nonce, get_nonce-set_nonces}

-- The next nonce of an address after transactions, where `old` is the one before them.
abbrev pub nonce_after : Bytes → List Transaction → ℕ → ℕ
nonce_after a [] old = old
nonce_after a (tx ∷ txs) old =
    nonce_after a txs (if bytes_equal tx.from a then (tx.nonce_value + 1) % 2 ^ 64 else old)

-- No item stands under the key of the nonce of the address.
abbrev pub AreApart : Bytes → List StateItem → Type 0
AreApart a [] = Unit
AreApart a (v ∷ vs) =
    (bytes_equal (state_key v.chain_id v.key) (nonce_key a) ≡ false) × AreApart a vs

last_nonce-map :
    (a : Bytes) (txs : List Transaction) (old : ℕ)
    → last_nonce a (map nonce_item txs) old ≡ nonce_after a txs old
unfolding nonce_item
last_nonce-map a [] old = refl
last_nonce-map a (tx ∷ txs) old = last_nonce-map a txs _

index_apart : (t a : Bytes) → bytes_equal (index_key t) (nonce_key a) ≡ false
unfolding bytes_equal index_key nonce_key
index_apart t a = refl

wrong_apart : (t a : Bytes) → bytes_equal (wrong_key t) (nonce_key a) ≡ false
unfolding bytes_equal wrong_key nonce_key
wrong_apart t a = refl

height_apart : (a : Bytes) → bytes_equal height_key (nonce_key a) ≡ false
unfolding bytes_equal height_key nonce_key
height_apart a = refl

module _ (b : Backend) (a : Bytes) where
  -- A write of another key, and the change of whatever else the ledger holds.
  nonce-put :
      (k : Bytes) (v : Value) (d : b.db.Db)
      → bytes_equal k (nonce_key a) ≡ false
      → number_of (b.db.get (nonce_key a) (b.db.put k v d)) ≡ number_of (b.db.get (nonce_key a) d)
  nonce-put k v d h = ground (arith, b.db.get-put k (nonce_key a) v d)

  nonce-delete :
      (k : Bytes) (d : b.db.Db)
      → bytes_equal k (nonce_key a) ≡ false
      → number_of (b.db.get (nonce_key a) (b.db.delete k d)) ≡ number_of (b.db.get (nonce_key a) d)
  nonce-delete k d h = ground (arith, b.db.get-delete k (nonce_key a) d)

  get_nonce-set_marked :
      (s : ItemState) (v : StateItem) (lh : LedgerHandler b)
      → bytes_equal (state_key v.chain_id v.key) (nonce_key a) ≡ false
      → get_nonce b a (set_marked b s v lh) ≡ get_nonce b a lh
  unfolding get_nonce NonceStore.get_nonce set_marked set_state delete_state
  get_nonce-set_marked deleted v lh h = nonce-delete (state_key v.chain_id v.key) lh.db h
  get_nonce-set_marked _ v lh h = nonce-put (state_key v.chain_id v.key) _ lh.db h

  get_nonce-set_items :
      (vs : List StateItem) (lh : LedgerHandler b)
      → AreApart a vs
      → get_nonce b a (set_items b vs lh) ≡ get_nonce b a lh
  unfolding set_items set_item
  get_nonce-set_items [] lh h = refl
  get_nonce-set_items (v ∷ vs) lh h =
      get_nonce-set_items vs (set_marked b v.state v lh) h.1 ∙ get_nonce-set_marked v.state v lh h.0

  get_nonce-set_indices :
      (n i : ℕ) (txs : List Transaction) (lh : LedgerHandler b)
      → get_nonce b a (set_indices b n i txs lh) ≡ get_nonce b a lh
  unfolding set_indices get_nonce NonceStore.get_nonce
  get_nonce-set_indices n i [] lh = refl
  get_nonce-set_indices n i (v ∷ txs) lh =
      get_nonce-set_indices n (i + 1) txs _
      ∙ nonce-put (index_key v.txid) _ lh.db (index_apart v.txid a)

  get_nonce-set_block_height :
      (n : ℕ) (lh : LedgerHandler b) → get_nonce b a (set_block_height b n lh) ≡ get_nonce b a lh
  unfolding set_block_height get_nonce NonceStore.get_nonce
  get_nonce-set_block_height n lh = nonce-put height_key _ lh.db (height_apart a)

  get_nonce-with_blocks :
      (block : Block) (lh : LedgerHandler b)
      → get_nonce b a (record lh { blocks = write_block b.block_db b.blocks block lh.blocks })
        ≡ get_nonce b a lh
  unfolding get_nonce NonceStore.get_nonce
  get_nonce-with_blocks block lh = refl

  get_nonce-write_all :
      (block : Block) (si : List StateItem) (ni : List NonceItem) (lh : LedgerHandler b)
      → AreApart a si
      → get_nonce b a (write_all b block si ni lh) ≡ last_nonce a ni (get_nonce b a lh)
  unfolding write_all set_hash_index
  get_nonce-write_all block si ni lh h =
      get_nonce-set_nonces b a ni _
      ∙ ap (last_nonce a ni) (
          get_nonce-set_indices block.header.block_num 0 block.txs _
          ∙ get_nonce-set_block_height _ _
          ∙ get_nonce-set_items si _ h
          ∙ get_nonce-with_blocks block lh)

  get_nonce-write_ledger :
      (block : Block) (si : List StateItem) (ni : List NonceItem) (lh : LedgerHandler b)
      → AreApart a si
      → (write_ledger b block si ni lh).0 ≡ ok tt
      → get_nonce b a (write_ledger b block si ni lh).1 ≡ last_nonce a ni (get_nonce b a lh)
  unfolding write_ledger
  get_nonce-write_ledger block si ni lh h accepted =
      ground (arith, get_nonce-write_all block si ni lh h)

-- While the transactions run, only what they do wrong is written.
module _ (b : Backend) (message : Error → Bytes) (a : Bytes) where
  get_nonce-settle :
      (tx : Transaction) (n : ℕ) (res : Result (Unit {0})) (h : Handle) (lh : LedgerHandler b)
      → get_nonce b a (settle b message tx n res h lh).1 ≡ get_nonce b a lh
  unfolding settle set_wrong_index get_nonce NonceStore.get_nonce
  get_nonce-settle tx n (ok _) h lh = refl
  get_nonce-settle tx n (err e) h lh =
      nonce-put b a (wrong_key tx.txid) _ lh.db (wrong_apart tx.txid a)

  get_nonce-run_tx :
      (handler : ContractInf) (tx : Transaction) (r : Run b)
      → get_nonce b a (run_tx b message handler tx r).ledger ≡ get_nonce b a r.ledger
  unfolding run_tx
  get_nonce-run_tx handler tx r = unfold settle in get_nonce-settle tx _ _ _ r.ledger

  get_nonce-run_with :
      (rest : Run b → Result (Unit {0}) × Run b) (tx : Transaction) (g : Result ContractInf)
      (r : Run b)
      → ((r' : Run b) → get_nonce b a (rest r').1.ledger ≡ get_nonce b a r'.ledger)
      → get_nonce b a (run_with b message rest tx g r).1.ledger ≡ get_nonce b a r.ledger
  unfolding run_with
  get_nonce-run_with rest tx (err e) r ih = refl
  get_nonce-run_with rest tx (ok handler) r ih =
      ih (run_tx b message handler tx r) ∙ get_nonce-run_tx handler tx r

  get_nonce-run_txs :
      (am : AppManager) (txs : List Transaction) (r : Run b)
      → get_nonce b a (run_txs b message am txs r).1.ledger ≡ get_nonce b a r.ledger
  unfolding run_txs
  get_nonce-run_txs am [] r = refl
  get_nonce-run_txs am (tx ∷ txs) r =
      get_nonce-run_with (λ r'. run_txs b message am txs r') tx (get_handler tx.contract_name am) r
        (get_nonce-run_txs am txs)

module _ (b : Backend) (message : Error → Bytes) where
  -- The entries of the state that the block writes.
  abbrev pub written : AppManager → Block → LedgerHandler b → List StateItem
  written am blk lh =
      let r = (run_txs b message am blk.txs (start b lh)).1 in all_states r.heap r.api_handlers

module _ (b : Backend) (message : Error → Bytes)
    (hash : List StateItem → List NonceItem → Bytes) where
  concluded :
      (blk : Block) (p : Result (Unit {0}) × Run b) (a : Bytes) (ni : List NonceItem)
      → AreApart a (all_states p.1.heap p.1.api_handlers)
      → (p.0 ≡ ok tt → p.1.nonces ≡ ni)
      → (conclude b message hash blk p).0 ≡ ok tt
      → get_nonce b a (conclude b message hash blk p).1 ≡ last_nonce a ni (get_nonce b a p.1.ledger)
  unfolding conclude finish
  concluded blk (err e, r) a ni h n ended = absurd (cc)
  concluded blk (ok _, r) a ni h n ended =
      get_nonce-write_ledger b a _ _ r.nonces r.ledger h ended
      ∙ ap (λ (l : List NonceItem). last_nonce a l (get_nonce b a r.ledger)) (n refl)

  -- Where BlockProcess ends a block without an error, and no state entry that the block writes stands
  -- under the key of the address's nonce, the ledger's nonce of the address is then one more, in 64
  -- bits, than the nonce of the address's last transaction in the block; and without a transaction of
  -- the address it is what it was.
  pub get_nonce-block_process :
      (am : AppManager) (blk : Block) (lh : LedgerHandler b) (a : Bytes)
      → AreApart a (written b message am blk lh)
      → (block_process b message hash am blk lh).0 ≡ ok tt
      → get_nonce b a (block_process b message hash am blk lh).1
        ≡ nonce_after a blk.txs (get_nonce b a lh)
  unfolding block_process start
  get_nonce-block_process am blk lh a h ended =
      concluded blk (run_txs b message am blk.txs (start b lh)) a (map nonce_item blk.txs) h
        (run_txs-nonces b message am blk.txs (start b lh)) ended
      ∙ ap (last_nonce a (map nonce_item blk.txs))
          (get_nonce-run_txs b message a am blk.txs (start b lh))
      ∙ last_nonce-map a blk.txs (get_nonce b a lh)
