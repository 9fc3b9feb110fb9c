-- ===== src/App/Startup/Restart.antt =====
-- What a restart of a node does to the balance of the first account.
use hnb_blockchain.Prelude.{◌≡◌, ◌∙◌, ap, refl, false, some, Option}
use hnb_blockchain.Prelude.Int.{pos}
use hnb_blockchain.Prelude.Bytes.{Bytes, codes, bytes_equal}
use hnb_blockchain.Prelude.Assoc.{insert}
use hnb_blockchain.State.{Value, text}
use hnb_blockchain.Hex.{hex_to_byte}
use hnb_blockchain.App.StateCache.{values, find, put, empty}
use hnb_blockchain.App.Api.{get_contract_api, get_all_state, put_state}
use hnb_blockchain.App.Startup.{contract_key, install, install_hgs, init_app_mgr}
use hnb_blockchain.Contract.Requests.{Json}
use hnb_blockchain.Contract.Amount.{amount_value}
use hnb_blockchain.Contract.Hnb.{hnb_chain, hgs_chain, total_balance, install_contract}
use hnb_blockchain.Ledger.Types.{Backend}
use hnb_blockchain.Ledger.Store.{or_else}
use hnb_blockchain.Ledger.StateStore
use hnb_blockchain.Ledger.StateStore.{state_key}
use hnb_blockchain.Ledger.Write.{LedgerHandler, get_contract_state}
use hnb_blockchain.Ledger.Write.Items.{AreStatesCoherent, after_items, set_contract_state_writes}

-- The first account, which the contracts name.
abbrev pub first_account : Bytes
first_account = hex_to_byte (codes "68175250cadc6f2524f55e891e244116fec4b690")

marks_apart : (k : Bytes) → bytes_equal (contract_key hnb_chain) (state_key hnb_chain k) ≡ false
unfolding bytes_equal state_key
marks_apart k = refl

module _ (b : Backend) where
  mark_keeps :
      (v : Value) (k : Bytes) (lh : LedgerHandler b)
      → get_contract_state b hnb_chain k
          (record lh { db = b.db.put (contract_key hnb_chain) v lh.db })
        ≡ get_contract_state b hnb_chain k lh
  unfolding get_contract_state StateStore.get_state
  mark_keeps v k lh = ap (or_else (b.states.get (state_key hnb_chain k) lh.states)) (
      b.db.get-put (contract_key hnb_chain) (state_key hnb_chain k) v lh.db
      ∙ rw (marks_apart k) refl)

  installed_items :
      (old : Option Value)
      → after_items hnb_chain first_account
          (get_all_state (install_contract (get_contract_api hnb_chain)))
          old
        ≡ some (amount_value (pos total_balance))
  unfolding get_all_state install_contract get_contract_api put_state hex_to_byte find values put
      empty insert state_key bytes_equal
  installed_items old = refl

  -- A restart gives the first account its initial balance again: where the mark of the HGS contract
  -- is there and the state cache agrees with the database, after `InitAppMgr` the ledger holds the
  -- whole initial amount of HNB for the first account, whatever it held before.
  pub init_app_mgr_resets :
      (json : Json) (v : Value) (lh : LedgerHandler b)
      → b.db.get (contract_key hgs_chain) lh.db ≡ some v
      → AreStatesCoherent b lh
      → get_contract_state b hnb_chain first_account (init_app_mgr b json lh).1
        ≡ some (amount_value (pos total_balance))
  unfolding init_app_mgr install
  init_app_mgr_resets json v lh there h =
      ap
        (λ l.
          get_contract_state b hnb_chain first_account
            (install b hnb_chain (install_contract (get_contract_api hnb_chain)) l))
        (ap (λ o. install_hgs b o lh) there ∙ unfold install_hgs in refl)
      ∙ mark_keeps (text (codes "active")) first_account _
      ∙ (set_contract_state_writes b _ hnb_chain first_account lh h).0
      ∙ installed_items (get_contract_state b hnb_chain first_account lh)
