-- ===== src/App/Manager/Digest.antt =====
-- The digest of a block's changes, and the nonces that a block leaves.
use hnb_blockchain.Prelude.{
  ℕ, ◌++◌, ◌≡◌, ◌∙◌, ap, refl, sym, arith, List, [], ◌∷◌, map, some, ◌==◌, ◌<◌, ◌^◌, true,
}
use mathlib.Core.List.{append_assoc, append-nil}
use hnb_blockchain.Prelude.Bytes.{Bytes}
use hnb_blockchain.Prelude.Result.{Result, ok, err, Error}
use hnb_blockchain.State.{StateItem}
use hnb_blockchain.App.Manager.{
  AppManager, Run, run_tx, run_with, run_txs, Handle, settle, conclude, nonce_item, get_handler,
  start, block_process,
}
use hnb_blockchain.Contract.Handler.{ContractInf}
use hnb_blockchain.Ledger.Types.{Transaction, Block, NonceItem, Backend}
use hnb_blockchain.Ledger.Write.{LedgerHandler, set_wrong_index, get_block}
use hnb_blockchain.Ledger.Write.Blocks.{get_block-write_ledger}
use hnb_blockchain.Ledger.BlockStore.{IsCoherent}

module _ (b : Backend) (message : Error → Bytes) where
  run_tx-nonces :
      (handler : ContractInf) (tx : Transaction) (r : Run b)
      → (run_tx b message handler tx r).nonces ≡ r.nonces ++ nonce_item tx ∷ []
  unfolding run_tx
  run_tx-nonces handler tx r = refl

  run_with-nonces :
      (rest : Run b → Result (Unit {0}) × Run b) (tx : Transaction) (more : List NonceItem)
      (g : Result ContractInf) (r : Run b)
      → ((r' : Run b) → (rest r').0 ≡ ok tt → (rest r').1.nonces ≡ r'.nonces ++ more)
      → (run_with b message rest tx g r).0 ≡ ok tt
      → (run_with b message rest tx g r).1.nonces ≡ r.nonces ++ nonce_item tx ∷ more
  unfolding run_with
  run_with-nonces rest tx more (err e) r ih h = absurd (cc)
  run_with-nonces rest tx more (ok handler) r ih h =
      ih (run_tx b message handler tx r) h
      ∙ ap (λ l. l ++ more) (run_tx-nonces handler tx r)
      ∙ append_assoc r.nonces (nonce_item tx ∷ []) more

  -- A loop over transactions that ends well has collected one nonce for each, in their order.
  pub run_txs-nonces :
      (am : AppManager) (txs : List Transaction) (r : Run b)
      → (run_txs b message am txs r).0 ≡ ok tt
      → (run_txs b message am txs r).1.nonces ≡ r.nonces ++ map nonce_item txs
  unfolding run_txs
  run_txs-nonces am [] r h = sym (append-nil r.nonces)
  run_txs-nonces am (tx ∷ txs) r h =
      run_with-nonces (λ r'. run_txs b message am txs r') tx (map nonce_item txs)
        (get_handler tx.contract_name am) r (run_txs-nonces am txs) h

  settle-blocks :
      (tx : Transaction) (n : ℕ) (res : Result (Unit {0})) (h : Handle) (lh : LedgerHandler b)
      → (settle b message tx n res h lh).1.blocks ≡ lh.blocks
  unfolding settle set_wrong_index
  settle-blocks tx n (ok _) h lh = refl
  settle-blocks tx n (err e) h lh = refl

  run_tx-blocks :
      (handler : ContractInf) (tx : Transaction) (r : Run b)
      → (run_tx b message handler tx r).ledger.blocks ≡ r.ledger.blocks
  unfolding run_tx
  run_tx-blocks handler tx r = unfold settle in settle-blocks tx _ _ _ r.ledger

  run_with-blocks :
      (rest : Run b → Result (Unit {0}) × Run b) (tx : Transaction) (g : Result ContractInf)
      (r : Run b)
      → ((r' : Run b) → (rest r').1.ledger.blocks ≡ r'.ledger.blocks)
      → (run_with b message rest tx g r).1.ledger.blocks ≡ r.ledger.blocks
  unfolding run_with
  run_with-blocks rest tx (err e) r ih = refl
  run_with-blocks rest tx (ok handler) r ih =
      ih (run_tx b message handler tx r) ∙ run_tx-blocks handler tx r

  run_txs-blocks :
      (am : AppManager) (txs : List Transaction) (r : Run b)
      → (run_txs b message am txs r).1.ledger.blocks ≡ r.ledger.blocks
  unfolding run_txs
  run_txs-blocks am [] r = refl
  run_txs-blocks am (tx ∷ txs) r =
      run_with-blocks (λ r'. run_txs b message am txs r') tx (get_handler tx.contract_name am) r
        (run_txs-blocks am txs)

-- A block with a digest of its changes.
abbrev pub with_state_hash : Bytes → Block → Block
with_state_hash h blk = record blk { header = record (blk.header) { state_hash = h } }

module _ (b : Backend) (message : Error → Bytes)
    (hash : List StateItem → List NonceItem → Bytes) where
  conclude_stores :
      (blk : Block) (p : Result (Unit {0}) × Run b) (ni : List NonceItem)
      → blk.header.block_num < 2 ^ 64
      → IsCoherent b.block_db b.blocks p.1.ledger.blocks
      → (p.0 ≡ ok tt → p.1.nonces ≡ ni)
      → (conclude b message hash blk p).0 ≡ ok tt
      → get_block b blk.header.block_num (conclude b message hash blk p).1
        ≡ some (with_state_hash (hash [] ni) blk)
  unfolding conclude
  conclude_stores blk (err e, r) ni fits h n ended = absurd (cc)
  conclude_stores blk (ok _, r) ni fits h n ended =
      get_block-write_ledger b (with_state_hash (hash [] r.nonces) blk) _ r.nonces r.ledger
        blk.header.block_num fits fits h ended
      ∙ rw (same blk.header.block_num) (rw (n refl) refl)
    where
      same : (m : ℕ) → (m == m) ≡ true
      same m = ground arith

  -- A block with a number of 64 bits that is processed without an error, on a ledger whose block cache
  -- agrees with its database, is stored under its number with a state digest over the senders' next
  -- nonces alone: the digest is the same whatever the block did to the state.
  pub block_process_digest :
      (am : AppManager) (blk : Block) (lh : LedgerHandler b)
      → blk.header.block_num < 2 ^ 64
      → IsCoherent b.block_db b.blocks lh.blocks
      → (block_process b message hash am blk lh).0 ≡ ok tt
      → get_block b blk.header.block_num (block_process b message hash am blk lh).1
        ≡ some (with_state_hash (hash [] (map nonce_item blk.txs)) blk)
  unfolding block_process start
  block_process_digest am blk lh fits h ended =
      conclude_stores blk (run_txs b message am blk.txs (start b lh)) (map nonce_item blk.txs) fits
        (rw (run_txs-blocks b message am blk.txs (start b lh)) h)
        (run_txs-nonces b message am blk.txs (start b lh)) ended
