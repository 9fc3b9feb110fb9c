-- ===== src/Tests/Startup.antt =====
-- The theorems on a node's start and on the refund of an epoch, at a chain with two accounts.
use hnb_blockchain.Prelude.{◌≡◌, ◌≢◌, refl, arith, none, some, List, [], ◌∷◌}
use hnb_blockchain.Prelude.Int.{ℤ, pos}
use hnb_blockchain.Prelude.Bytes.{Bytes, codes, bytes_equal}
use hnb_blockchain.Prelude.Assoc.{lookup}
use hnb_blockchain.Prelude.Result.{ok}
use hnb_blockchain.Strconv.{format_uint, digits, parse_int_checked}
use hnb_blockchain.State.{text, vote_records, VoteRecord}
use hnb_blockchain.App.StateCache.{get, empty}
use hnb_blockchain.App.Api.{get_state, get_contract_api, set_args}
use hnb_blockchain.App.Manager.{AppManager, get_handler, reads}
use hnb_blockchain.App.Startup.{init_app_mgr, unfreeze, call_of}
use hnb_blockchain.App.Startup.Restart.{first_account, init_app_mgr_resets}
use hnb_blockchain.App.Startup.Unfreeze.{request_of, unfreeze_refunds}
use hnb_blockchain.Contract.Requests.{Json, Request}
use hnb_blockchain.Contract.Amount.{amount_value, balance_of, parse_value_checked}
use hnb_blockchain.Contract.Handler.{hnb_contract}
use hnb_blockchain.Contract.Hnb.{hnb_chain, total_balance, get_balance}
use hnb_blockchain.Contract.Hnb.Entries.{AreKept, invoke-AreKept}
use hnb_blockchain.Contract.Hnb.Invoke.{invoke, unfreeze_token}
use hnb_blockchain.Contract.Hnb.Vote.{get_epoch_key, get_epoch_record_key, read_records}
use hnb_blockchain.Contract.Hnb.Vote.Refund.{refunded, AreReadable}
use hnb_blockchain.Ledger.Store.{or_else}
use hnb_blockchain.Ledger.StateStore
use hnb_blockchain.Ledger.StateStore.{state_key}
use hnb_blockchain.Ledger.StateStore.Laws
use hnb_blockchain.Ledger.Write.{LedgerHandler, get_contract_state}
use hnb_blockchain.Ledger.Write.Items.{AreStatesCoherent}
use hnb_blockchain.Tests.Backends.{backend}
use hnb_blockchain.Tests.Contracts.{alice, genesis, alice_calls}

-- Every request decodes as the request to unfreeze epoch 3.
abbrev unfreezes : Json
unfreezes = record {
  request = λ s. some (request_of 3);
  same_tx = λ s. none;
  diff_tx = λ s. none;
  vote_info = λ s. none;
}

abbrev encode : Request → Bytes
encode r = codes "request"

alice_calls-AreKept : AreKept alice_calls
alice_calls-AreKept = record { own = refl; short = refl; entries = tt }

invoke-AreKept_example : AreKept (invoke unfreezes genesis alice_calls).1
invoke-AreKept_example = invoke-AreKept unfreezes genesis alice_calls alice_calls-AreKept

abbrev frozen : List VoteRecord
frozen = record { from_addr = alice; voting_power = pos 20 } ∷ []

-- The HGS contract is installed; Alice has 30 tokens, and 20 frozen ones in epoch 3.
abbrev running : LedgerHandler backend
running = record {
  db =
      (codes "contract#hgs", text (codes "active"))
      ∷ (codes "hnb#alice", text (codes "30"))
      ∷ (codes "hnb#record_epoch#3", vote_records frozen)
      ∷ [];
  blocks = record { cache = λ k. none; store = [] };
  states = λ k. none;
  nonces = λ k. none;
}

running-AreStatesCoherent : AreStatesCoherent backend running
unfolding AreStatesCoherent Laws.IsCoherent
running-AreStatesCoherent k v h = cc

marked : backend.db.get (codes "contract#hgs") running.db ≡ some (text (codes "active"))
unfolding lookup bytes_equal
marked = refl

init_app_mgr_resets_example :
    get_contract_state backend hnb_chain first_account (init_app_mgr backend unfreezes running).1
    ≡ some (amount_value (pos total_balance))
init_app_mgr_resets_example =
    init_app_mgr_resets backend unfreezes (text (codes "active")) running marked
      running-AreStatesCoherent

abbrev manager : AppManager
manager = record { scs = (codes "hnb", hnb_contract unfreezes) ∷ [] }

there : get_handler hnb_chain manager ≡ ok (hnb_contract unfreezes)
unfolding get_handler lookup bytes_equal
there = refl

records_there :
    read_records (get_contract_state backend hnb_chain (get_epoch_record_key 3) running) ≡ ok frozen
unfolding read_records get_contract_state StateStore.get_state state_key lookup bytes_equal
    get_epoch_record_key format_uint digits or_else
records_there = refl

frozen-AreReadable :
    AreReadable (reads backend running) frozen (call_of backend encode unfreeze_token 3)
unfolding get_balance balance_of get_state get empty get_contract_api set_args lookup
    parse_value_checked parse_int_checked bytes_equal get_contract_state StateStore.get_state
    state_key or_else
frozen-AreReadable = ((pos 30, refl), tt)

unfreeze_refunds_example :
    let (r, lh') = unfreeze backend encode manager 3 running in
    (r ≡ ok tt)
    × (get_contract_state backend hnb_chain (get_epoch_record_key 3) lh' ≡ none)
    × ((k : Bytes) (x : ℤ)
        → k ≢ get_epoch_key 3
        → k ≢ get_epoch_record_key 3
        → balance_of (ok (get_contract_state backend hnb_chain k running)) ≡ ok x
        → balance_of (ok (get_contract_state backend hnb_chain k lh')) ≡ ok (refunded k frozen x))
unfreeze_refunds_example =
    unfreeze_refunds backend unfreezes encode 3 running manager frozen there refl (omega arith)
      running-AreStatesCoherent records_there frozen-AreReadable
