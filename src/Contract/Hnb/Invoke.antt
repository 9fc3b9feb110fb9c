-- ===== src/Contract/Hnb/Invoke.antt =====
-- contract/hnb/hnb.go: the entry points `Invoke`, `CheckTx` and `Query`, which decode a request and
-- dispatch on its type.
use hnb_blockchain.Prelude.{ℕ, ◌==◌, if◌then◌else◌, Option, List}
use hnb_blockchain.Prelude.Bytes.{Bytes}
use hnb_blockchain.Prelude.Result.{Error, Action, reads, pure, lift, or_fail, ◌>>=◌}
use hnb_blockchain.Strconv.{format_int, parse_uint_checked}
use hnb_blockchain.State.{Value, Ledger}
use hnb_blockchain.App.Api.{ContractApi, get_state}
use hnb_blockchain.Contract.Requests.{Json, Request}
use hnb_blockchain.Contract.Hnb.{same_pro, diff_pro, check_same_pro, check_diff_pro}
use hnb_blockchain.Contract.Hnb.Vote.{vote_pro, un_freeze_pro, get_vote_sum, get_vote_token_order}

-- The types of a transaction and of a query.
abbrev pub same : ℕ
same = 1

abbrev pub diff : ℕ
diff = 2

abbrev pub pos_vote_transcation : ℕ
pos_vote_transcation = 3

abbrev pub unfreeze_token : ℕ
unfreeze_token = 4

abbrev pub balance : ℕ
balance = 1

abbrev pub votesum : ℕ
votesum = 2

abbrev pub tokenorder : ℕ
tokenorder = 3

-- The bytes that `Query` returns, before they are encoded.
pub data Reply : Type 0 where
  nothing : Reply
  stored : Option Value → Reply
  sum : Bytes → Reply
  order : Option (List Bytes) → Reply

module _ (json : Json) (ledger : Ledger) where
  -- A type that is not known is no error, and does nothing.
  unfoldable pub invoke_request : Request → Action ContractApi (Unit {0})
  invoke_request hx =
      if hx.tx_type == same
      then lift (or_fail (json.same_tx hx.payload) Error.bad_request) >>= same_pro ledger
      else if hx.tx_type == diff
      then lift (or_fail (json.diff_tx hx.payload) Error.bad_request) >>= diff_pro ledger
      else if hx.tx_type == pos_vote_transcation
      then lift (or_fail (json.vote_info hx.payload) Error.bad_request) >>= vote_pro ledger
      else if hx.tx_type == unfreeze_token
      then lift (parse_uint_checked hx.payload) >>= un_freeze_pro ledger
      else pure tt

  unfoldable pub invoke : Action ContractApi (Unit {0})
  unfolding invoke_request
  invoke ca = (lift (or_fail (json.request ca.args) Error.bad_request) >>= invoke_request) ca

  -- Votes pass unchecked, and an unfreezing runs.
  unfoldable pub check_request : Request → Action ContractApi (Unit {0})
  check_request hx =
      if hx.tx_type == same
      then lift (or_fail (json.same_tx hx.payload) Error.bad_request) >>= check_same_pro ledger
      else if hx.tx_type == diff
      then lift (or_fail (json.diff_tx hx.payload) Error.bad_request) >>= check_diff_pro ledger
      else if hx.tx_type == pos_vote_transcation
      then pure tt
      else if hx.tx_type == unfreeze_token
      then lift (parse_uint_checked hx.payload) >>= un_freeze_pro ledger
      else pure tt

  unfoldable pub check_tx : Action ContractApi (Unit {0})
  unfolding check_request
  check_tx ca = (lift (or_fail (json.request ca.args) Error.bad_request) >>= check_request) ca

  unfoldable pub query_votes : Bytes → Action ContractApi Reply
  query_votes payload = do
    epoch_no ← lift (parse_uint_checked payload)
    total ← reads (get_vote_sum ledger epoch_no)
    pure (sum (format_int total))

  unfoldable pub query_order : Bytes → Action ContractApi Reply
  query_order payload = do
    epoch_no ← lift (parse_uint_checked payload)
    peer_ids ← reads (get_vote_token_order ledger epoch_no)
    pure (order peer_ids)

  unfoldable pub query_balance : Bytes → Action ContractApi Reply
  query_balance payload = do value ← reads (get_state ledger payload); pure (stored value)

  unfoldable pub query_request : Request → Action ContractApi Reply
  unfolding query_balance query_votes query_order
  query_request qh =
      if qh.tx_type == balance
      then query_balance qh.payload
      else if qh.tx_type == votesum
      then query_votes qh.payload
      else if qh.tx_type == tokenorder
      then query_order qh.payload
      else pure nothing

  unfoldable pub query : Action ContractApi Reply
  unfolding query_request
  query ca = (lift (or_fail (json.request ca.args) Error.bad_request) >>= query_request) ca
