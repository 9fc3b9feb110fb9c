-- ===== src/App/Manager/Rollback.antt =====
-- What a failed transaction leaves behind: the snapshot that is restored is the live map, so the
-- restore undoes nothing.
use hnb_blockchain.Prelude.{◌≡◌, refl, arith, some, ◌∙◌}
use hnb_blockchain.Prelude.Bytes.{Bytes, bytes_equal_refl}
use hnb_blockchain.Prelude.Assoc.{lookup, lookup-insert}
use hnb_blockchain.Prelude.Result.{Result, ok, err, Error}
use hnb_blockchain.Contract.Handler.{ContractInf}
use hnb_blockchain.App.Api.{ContractApi}
use hnb_blockchain.App.Manager.{
  Handle, Run, handle_for, run_tx, api_of, reads, store_cell, settle, snapshot_restore,
  get_snapshot,
}
use hnb_blockchain.Ledger.Types.{Transaction, Backend}
use hnb_blockchain.Ledger.Write.{LedgerHandler}

module _ (b : Backend) (message : Error → Bytes) where
  -- The handle keeps its place, whether the snapshot that it took is restored or not.
  settle-ref :
      (tx : Transaction) (res : Result (Unit {0})) (h : Handle) (lh : LedgerHandler b)
      → (settle b message tx (get_snapshot h) res h lh).0.ref ≡ h.ref
  unfolding settle snapshot_restore get_snapshot
  settle-ref tx (ok _) h lh = refl
  settle-ref tx (err e) h lh = refl

module _ (b : Backend) (message : Error → Bytes) (handler : ContractInf) (tx : Transaction)
    (r : Run b) where
  -- The handle that the transaction runs with, and the call of its contract.
  abbrev pub handle : Handle
  handle = record ((handle_for b tx.contract_name r).0) { args = tx.payload; from = tx.from }

  abbrev pub called : Result (Unit {0}) × ContractApi
  called = handler.invoke (reads b r.ledger) (api_of (handle_for b tx.contract_name r).1 handle)

  -- Whether the call of a contract succeeds or fails and its snapshot is restored, the handle that the
  -- block keeps for the contract, which its later transactions run with and whose entries are written
  -- to the ledger at the end, has a map with all that the call wrote.
  pub run_tx_keeps_writes :
      (h : Handle) × (lookup tx.contract_name (run_tx b message handler tx r).api_handlers ≡ some h)
      × ((run_tx b message handler tx r).heap.cell h.ref ≡ called.1.sc.memory)
  unfolding run_tx store_cell
  run_tx_keeps_writes =
      let s = settle b message tx (get_snapshot handle) called.0 handle r.ledger in
      (
        s.0,
        lookup-insert tx.contract_name tx.contract_name s.0 r.api_handlers
            ∙ rw (bytes_equal_refl tx.contract_name) refl,
        ground (arith, settle-ref b message tx called.0 handle r.ledger),
      )
