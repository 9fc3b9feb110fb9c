-- ===== src/App/Startup.antt =====
-- appMgr/manager.go: the installation of the contracts at the start of a node, the refund at the end of
-- an epoch, and the queries of the consensus. `encode` is the JSON of a request.
pub mod Restart
pub mod Unfreeze
use hnb_blockchain.Prelude.{ℕ, ◌++◌, Option, none, some, List, [], ◌∷◌}
use hnb_blockchain.Prelude.Int.{ℤ}
use hnb_blockchain.Prelude.Bytes.{Bytes, codes}
use hnb_blockchain.Prelude.Result.{Result, ok, err, Error, Action}
use hnb_blockchain.Strconv.{format_uint, parse_int_checked}
use hnb_blockchain.State.{Value, text, Ledger}
use hnb_blockchain.App.Api.{ContractApi, get_contract_api, set_args, get_all_state}
use hnb_blockchain.App.Manager.{AppManager, set_handler, get_handler, reads}
use hnb_blockchain.Contract.Requests.{Json, Request}
use hnb_blockchain.Contract.Handler.{ContractInf, hnb_contract, hgs_contract}
use hnb_blockchain.Contract.Hnb.{hnb_chain, hgs_chain}
use hnb_blockchain.Contract.Hnb
use hnb_blockchain.Contract.Hgs
use hnb_blockchain.Contract.Hnb.Invoke.{Reply, sum, order, unfreeze_token, votesum, tokenorder}
use hnb_blockchain.Ledger.Types.{Backend}
use hnb_blockchain.Ledger.Write.{LedgerHandler, set_contract_state}

abbrev pub contract_key : Bytes → Bytes
contract_key chain_id = codes "contract#" ++ chain_id

module _ (b : Backend) where
  -- A contract's own installation, written to the ledger, and the mark that it is there.
  unfoldable pub install : Bytes → ContractApi → LedgerHandler b → LedgerHandler b
  install chain_id ca lh =
      let written = set_contract_state b (get_all_state ca) lh in
      record written { db = b.db.put (contract_key chain_id) (text (codes "active")) written.db }

  unfoldable pub install_hgs : Option Value → LedgerHandler b → LedgerHandler b
  unfolding install
  install_hgs none lh = install hgs_chain (Hgs.install_contract (get_contract_api hgs_chain)) lh
  install_hgs (some v) lh = lh

  -- `InitAppMgr`. Only the mark of the HGS contract is looked for.
  unfoldable pub init_app_mgr : Json → LedgerHandler b → AppManager × LedgerHandler b
  unfolding install_hgs
  init_app_mgr json lh = (
    set_handler hnb_chain (hnb_contract json)
        (set_handler hgs_chain (hgs_contract json) (record { scs = [] })),
    install hnb_chain (Hnb.install_contract (get_contract_api hnb_chain))
        (install_hgs (b.db.get (contract_key hgs_chain) lh.db) lh),
  )

  -- The changes of a call that succeeds go to the ledger.
  unfoldable pub commit : Result (Unit {0}) × ContractApi → Action (LedgerHandler b) (Unit {0})
  commit (err e, ca) lh = (err e, lh)
  commit (ok _, ca) lh = (ok tt, set_contract_state b (get_all_state ca) lh)

  abbrev pub call_of : (Request → Bytes) → ℕ → ℕ → ContractApi
  call_of encode tx_type epoch_no =
      set_args (encode (record { tx_type = tx_type; payload = format_uint epoch_no }))
        (get_contract_api hnb_chain)

  unfoldable pub unfreeze_with :
      (Request → Bytes) → ℕ → Result ContractInf → Action (LedgerHandler b) (Unit {0})
  unfolding commit
  unfreeze_with encode epoch_no (err e) lh = (err e, lh)
  unfreeze_with encode epoch_no (ok handler) lh =
      commit (handler.invoke (reads b lh) (call_of encode unfreeze_token epoch_no)) lh

  -- `UnfreezeToken`
  unfoldable pub unfreeze : (Request → Bytes) → AppManager → ℕ → Action (LedgerHandler b) (Unit {0})
  unfolding unfreeze_with
  unfreeze encode am epoch_no lh = unfreeze_with encode epoch_no (get_handler hnb_chain am) lh

-- The number that the reply's bytes stand for.
unfoldable pub sum_of : Reply → Result ℤ
sum_of (sum s) = parse_int_checked s
sum_of _ = err Error.invalid_number

unfoldable pub order_of : Reply → Result (List Bytes)
order_of (order (some peer_ids)) = ok peer_ids
order_of (order none) = ok []
order_of _ = err Error.bad_document

module _ (encode : Request → Bytes) (am : AppManager) (ledger : Ledger) where
  -- A query of the HNB contract, where the source uses a nil handler if it is not there.
  abbrev pub ask : ℕ → ℕ → Result Reply
  ask tx_type epoch_no = elim (get_handler hnb_chain am) [
    | err e ↦ err e
    | ok h ↦
        (h.query ledger (
          set_args (encode (record { tx_type = tx_type; payload = format_uint epoch_no }))
            (get_contract_api hnb_chain))).0
  ]

  -- `GetVoteSum`
  unfoldable pub get_vote_sum : ℕ → Result ℤ
  unfolding sum_of
  get_vote_sum epoch_no = elim (ask votesum epoch_no) [ err e ↦ err e | ok r ↦ sum_of r ]

  -- `GetVotePeerIDOrderToken`
  unfoldable pub get_vote_peer_id_order_token : ℕ → Result (List Bytes)
  unfolding order_of
  get_vote_peer_id_order_token epoch_no = elim (ask tokenorder epoch_no) [
    | err e ↦ err e
    | ok r ↦ order_of r
  ]
