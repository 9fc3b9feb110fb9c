-- ===== src/App/Startup/Unfreeze.antt =====
-- The refund at the end of an epoch, from the request to the ledger.
use hnb_blockchain.Prelude.{
  ℕ, ◌^◌, ◌<◌, ◌≡◌, ◌≢◌, ◌∙◌, ap, refl, sym, subst, none, some, List, arith,
}
use hnb_blockchain.Prelude.Int.{ℤ}
use hnb_blockchain.Prelude.Bytes.{Bytes}
use hnb_blockchain.Prelude.Assoc.{lookup}
use hnb_blockchain.Prelude.Result.{ok}
use hnb_blockchain.Strconv.{format_uint}
use hnb_blockchain.Strconv.RoundTrip.{parse_uint_checked-format_uint}
use hnb_blockchain.State.{VoteRecord}
use hnb_blockchain.App.StateCache.{get, empty}
use hnb_blockchain.App.Api.{
  ContractApi, get_contract_api, set_args, get_state, get_other_state, get_all_state,
}
use hnb_blockchain.App.Commit.{get_contract_state-get_all_state}
use hnb_blockchain.App.Manager.{AppManager, get_handler, reads}
use hnb_blockchain.App.Startup.{call_of, commit, unfreeze_with, unfreeze}
use hnb_blockchain.Contract.Requests.{Json, Request}
use hnb_blockchain.Contract.Amount.{balance_of}
use hnb_blockchain.Contract.Handler.{hnb_contract}
use hnb_blockchain.Contract.Hnb.{hnb_chain, get_balance}
use hnb_blockchain.Contract.Hnb.Entries.{AreKept, invoke-AreKept}
use hnb_blockchain.Contract.Hnb.Invoke.{invoke, invoke_request, unfreeze_token}
use hnb_blockchain.Contract.Hnb.Vote.{
  get_epoch_key, get_epoch_record_key, read_records, un_freeze_pro,
}
use hnb_blockchain.Contract.Hnb.Vote.Refund.{AreReadable, refunded, un_freeze_pro_refunds}
use hnb_blockchain.Ledger.Types.{Backend}
use hnb_blockchain.Ledger.Write.{LedgerHandler, get_contract_state, set_contract_state}
use hnb_blockchain.Ledger.Write.Items.{AreStatesCoherent}

-- The request that `UnfreezeToken` sends.
abbrev pub request_of : ℕ → Request
request_of epoch_no = record { tx_type = unfreeze_token; payload = format_uint epoch_no }

module _ (b : Backend) (json : Json) (encode : Request → Bytes) (epoch_no : ℕ)
    (lh : LedgerHandler b) where
  abbrev call : ContractApi
  call = call_of b encode unfreeze_token epoch_no

  call-AreKept : AreKept call
  unfolding set_args get_contract_api empty
  call-AreKept = record { own = refl; short = refl; entries = tt }

  get_state-call :
      (k : Bytes) → get_state (reads b lh) k call ≡ ok (get_contract_state b hnb_chain k lh)
  unfolding get_state set_args get_contract_api empty get lookup
  get_state-call k = refl

  invoke-call :
      json.request (encode (request_of epoch_no)) ≡ some (request_of epoch_no)
      → epoch_no < 2 ^ 64
      → invoke json (reads b lh) call ≡ un_freeze_pro (reads b lh) epoch_no call
  unfolding invoke invoke_request set_args
  invoke-call decodes fits = ground (arith, decodes, parse_uint_checked-format_uint epoch_no fits)

  get_state-eq-other :
      (k : Bytes) (ca : ContractApi)
      → get_state (reads b lh) k ca ≡ get_other_state (reads b lh) ca.chain_id k ca
  unfolding get_state get_other_state
  get_state-eq-other k ca = refl

  get_state-committed :
      (ca : ContractApi) (k : Bytes)
      → AreKept ca
      → AreStatesCoherent b lh
      → ok (get_contract_state b hnb_chain k (set_contract_state b (get_all_state ca) lh))
        ≡ get_state (reads b lh) k ca
  get_state-committed ca k kept coherent =
      sym (get_contract_state-get_all_state b lh hnb_chain k ca refl kept.entries coherent)
      ∙ ap (λ c. get_other_state (reads b lh) c k ca) (sym kept.own)
      ∙ sym (get_state-eq-other k ca)

  abbrev unfrozen : ContractApi
  unfrozen = (un_freeze_pro (reads b lh) epoch_no call).1

  unfreeze-committed :
      (am : AppManager)
      → get_handler hnb_chain am ≡ ok (hnb_contract json)
      → invoke json (reads b lh) call ≡ un_freeze_pro (reads b lh) epoch_no call
      → (un_freeze_pro (reads b lh) epoch_no call).0 ≡ ok tt
      → unfreeze b encode am epoch_no lh ≡ (ok tt, set_contract_state b (get_all_state unfrozen) lh)
  unfolding unfreeze unfreeze_with commit hnb_contract
  unfreeze-committed am there called done = ground (arith, there, called, done)

  -- Where the HNB contract is installed, the node's request is read back by its decoder, the state cache
  -- agrees with the database and the epoch's records and their accounts' balances can be read,
  -- `UnfreezeToken` succeeds: in the ledger the epoch's records are gone, and every address other than
  -- the epoch's two keys has the tokens of all of its records back.
  pub unfreeze_refunds :
      (am : AppManager) (vs : List VoteRecord)
      → get_handler hnb_chain am ≡ ok (hnb_contract json)
      → json.request (encode (request_of epoch_no)) ≡ some (request_of epoch_no)
      → epoch_no < 2 ^ 64
      → AreStatesCoherent b lh
      → read_records (get_contract_state b hnb_chain (get_epoch_record_key epoch_no) lh) ≡ ok vs
      → AreReadable (reads b lh) vs call
      → let (r, lh') = unfreeze b encode am epoch_no lh in
        (r ≡ ok tt)
        × (get_contract_state b hnb_chain (get_epoch_record_key epoch_no) lh' ≡ none)
        × ((k : Bytes) (x : ℤ)
            → k ≢ get_epoch_key epoch_no
            → k ≢ get_epoch_record_key epoch_no
            → balance_of (ok (get_contract_state b hnb_chain k lh)) ≡ ok x
            → balance_of (ok (get_contract_state b hnb_chain k lh')) ≡ ok (refunded k vs x))
  unfolding get_balance
  unfreeze_refunds am vs there decodes fits coherent records readable =
      let called = invoke-call decodes fits in
      let (done, votes_gone, records_gone, balances) =
        un_freeze_pro_refunds (reads b lh) epoch_no call _ vs
          (get_state-call (get_epoch_record_key epoch_no)) records readable in
      let kept : AreKept unfrozen =
        subst (λ p. AreKept p.1) called (invoke-AreKept json (reads b lh) call call-AreKept) in
      rw (unfreeze-committed am there called done) (
        refl,
        ground (
          arith,
          get_state-committed unfrozen (get_epoch_record_key epoch_no) kept coherent,
          records_gone,
        ),
        λ k x not_votes not_records e.
            ap balance_of (get_state-committed unfrozen k kept coherent)
            ∙ balances k x not_votes not_records (ap balance_of (get_state-call k) ∙ e),
      )
