-- ===== src/Contract/Hnb/Entries.antt =====
-- Every call of the HNB contract keeps the entries of its cache in order.
use hnb_blockchain.Prelude.{arith, refl, ◌==◌, Option, List, [], ◌∷◌, ℕ}
use hnb_blockchain.Prelude.Int.{ℤ}
use hnb_blockchain.Prelude.Bytes.{Bytes}
use hnb_blockchain.Prelude.Result.{
  Result, ok, err, Error, Action, lift, or_fail, modify, ◌>>=◌, ◌>>◌, Keeps, bind-Keeps, if-Keeps,
}
use hnb_blockchain.State.{Value, Ledger, VoteRecord}
use hnb_blockchain.App.Api.{ContractApi, del_state}
use hnb_blockchain.App.Commit.Kept.{
  IsWellFormed, put_state-IsWellFormed, put_other_state-IsWellFormed, del_state-IsWellFormed,
}
use hnb_blockchain.Contract.Requests.{Json, Request, SameTx, DiffTx, VoteInfo}
use hnb_blockchain.Contract.Hnb.{
  set_balance, set_other_state_balance, hgs_chain, hnb_chain, same_pro, diff_pro,
}
use hnb_blockchain.Contract.Hnb.Vote.{
  add_to_total, append_record, save_token_total, save_token_from_info, vote_pro, refund_all,
  unfreeze_records, un_freeze_pro, read_records, get_epoch_key, get_epoch_record_key,
}
use hnb_blockchain.Contract.Hnb.Invoke.{
  same, diff, pos_vote_transcation, unfreeze_token, invoke_request, invoke,
}

-- The contract's own call, over a cache of entries in order.
abbrev pub AreKept : ContractApi → Type 0
AreKept = IsWellFormed hnb_chain

set_balance-AreKept :
    (addr : Bytes) (n : ℤ) (ca : ContractApi) → AreKept ca → AreKept (set_balance addr n ca)
unfolding set_balance
set_balance-AreKept addr n ca h = put_state-IsWellFormed hnb_chain addr _ ca h

set_other-AreKept :
    (addr : Bytes) (n : ℤ) (ca : ContractApi)
    → AreKept ca
    → AreKept (set_other_state_balance hgs_chain addr n ca)
unfolding set_other_state_balance
set_other-AreKept addr n ca h = put_other_state-IsWellFormed hnb_chain hgs_chain addr _ ca refl h

module _ (ledger : Ledger) where
  same_pro_kept : (hx : SameTx) → Keeps AreKept (same_pro ledger hx)
  unfolding same_pro
  same_pro_kept hx ca h = grind (arith, set_balance-AreKept)

  diff_pro_kept : (hx : DiffTx) → Keeps AreKept (diff_pro ledger hx)
  unfolding diff_pro
  diff_pro_kept hx ca h = grind (arith, set_balance-AreKept, set_other-AreKept)

  add_to_total_kept :
      (from candidate : Bytes) (power : ℤ) (epoch : ℕ) (n : ℤ) (r : Result (Option Value))
      → Keeps AreKept (add_to_total from candidate power epoch n r)
  unfolding add_to_total
  add_to_total_kept from candidate power epoch n (err e) ca h = h
  add_to_total_kept from candidate power epoch n (ok v) ca h =
      grind (arith, put_state-IsWellFormed hnb_chain)

  save_token_total_kept : (vi : VoteInfo) → Keeps AreKept (save_token_total ledger vi)
  unfolding save_token_total
  save_token_total_kept vi ca h = grind (arith, add_to_total_kept)

  append_record_kept :
      (epoch : ℕ) (v : VoteRecord) (r : Result (Option Value))
      → Keeps AreKept (append_record epoch v r)
  unfolding append_record
  append_record_kept epoch v (err e) ca h = h
  append_record_kept epoch v (ok o) ca h = grind (arith, put_state-IsWellFormed hnb_chain)

  save_token_from_info_kept : (vi : VoteInfo) → Keeps AreKept (save_token_from_info ledger vi)
  unfolding save_token_from_info
  save_token_from_info_kept vi ca h = unfold append_record in append_record_kept _ _ _ ca h

  vote_pro_kept : (vi : VoteInfo) → Keeps AreKept (vote_pro ledger vi)
  unfolding vote_pro
  vote_pro_kept vi =
      bind-Keeps AreKept (save_token_total ledger vi) (λ _. save_token_from_info ledger vi)
        (save_token_total_kept vi) (λ _. save_token_from_info_kept vi)

  refund_all_kept : (vs : List VoteRecord) → Keeps AreKept (refund_all ledger vs)
  unfolding refund_all
  refund_all_kept [] ca h = h
  refund_all_kept (v ∷ vs) ca h = grind (arith, set_balance-AreKept, refund_all_kept vs)

  lift_kept :
      {A : Type 0} (r : Result A) (f : A → Action ContractApi (Unit {0}))
      → ((a : A) → Keeps AreKept (f a))
      → Keeps AreKept (lift r >>= f)
  lift_kept r f h = bind-Keeps AreKept (lift r) f (λ s p. p) h

  clear_kept :
      (epoch : ℕ)
      → Keeps AreKept (
          modify (del_state (get_epoch_record_key epoch))
          >> modify (del_state (get_epoch_key epoch)))
  clear_kept epoch ca h =
      del_state-IsWellFormed hnb_chain (get_epoch_key epoch) _
        (del_state-IsWellFormed hnb_chain (get_epoch_record_key epoch) ca h)

  unfreeze_records_kept :
      (epoch : ℕ) (r : Result (Option Value)) → Keeps AreKept (unfreeze_records ledger epoch r)
  unfolding unfreeze_records
  unfreeze_records_kept epoch (err e) = λ ca h. h
  unfreeze_records_kept epoch (ok o) =
      lift_kept (read_records o)
        (λ vrs.
          refund_all ledger vrs
          >> (modify (del_state (get_epoch_record_key epoch))
              >> modify (del_state (get_epoch_key epoch))))
        (λ vrs.
          bind-Keeps AreKept (refund_all ledger vrs)
            (λ _.
              modify (del_state (get_epoch_record_key epoch))
              >> modify (del_state (get_epoch_key epoch)))
            (refund_all_kept vrs) (λ _. clear_kept epoch))

  un_freeze_pro_kept : (epoch : ℕ) → Keeps AreKept (un_freeze_pro ledger epoch)
  unfolding un_freeze_pro
  un_freeze_pro_kept epoch ca h = unfold unfreeze_records in unfreeze_records_kept epoch _ ca h

module _ (json : Json) (ledger : Ledger) where
  invoke_request_kept : (hx : Request) → Keeps AreKept (invoke_request json ledger hx)
  unfolding invoke_request
  invoke_request_kept hx =
      if-Keeps AreKept (hx.tx_type == same) _ _
        (lift_kept ledger _ (same_pro ledger) (same_pro_kept ledger))
        (if-Keeps AreKept (hx.tx_type == diff) _ _
          (lift_kept ledger _ (diff_pro ledger) (diff_pro_kept ledger))
          (if-Keeps AreKept (hx.tx_type == pos_vote_transcation) _ _
            (lift_kept ledger _ (vote_pro ledger) (vote_pro_kept ledger))
            (if-Keeps AreKept (hx.tx_type == unfreeze_token) _ _
              (lift_kept ledger _ (un_freeze_pro ledger) (un_freeze_pro_kept ledger)) (λ s p. p))))

  -- Whatever a sender's request is, and whether it succeeds or fails, a call of the HNB contract on a
  -- cache of entries in order, each under its chain's name and key and none twice, leaves such a
  -- cache and stays the contract's own.
  pub invoke-AreKept : (ca : ContractApi) → AreKept ca → AreKept (invoke json ledger ca).1
  unfolding invoke
  invoke-AreKept ca h =
      lift_kept ledger (or_fail (json.request ca.args) Error.bad_request)
        (invoke_request json ledger) invoke_request_kept ca h
