-- ===== src/Contract/Hgs.antt =====
-- contract/hgs/hgs.go: the HGS token. It has its own copy of the transfer and the exchange, which
-- differs from the HNB token's: the sender must have an entry, both amounts are computed before
-- the first write, and a receiver's balance that is no number counts as what `ParseInt` returns.
pub mod Transfer
use hnb_blockchain.Prelude.{ℕ, ◌==◌, if◌then◌else◌, Option, none, some, List, [], ◌∷◌}
use hnb_blockchain.Prelude.Int.{ℤ, pos, ltb_ℤ, add64, sub64}
use hnb_blockchain.Prelude.Bytes.{Bytes, codes, bytes_equal}
use hnb_blockchain.Prelude.Result.{
  Result, ok, err, Error, Action, reads, pure, lift, fail_if, or_fail, modify, ◌>>=◌, ◌>>◌,
}
use hnb_blockchain.Hex.{hex_to_byte}
use hnb_blockchain.State.{Value, Ledger}
use hnb_blockchain.App.Api.{ContractApi, get_state, get_other_state, put_state, put_other_state}
use hnb_blockchain.Contract.Requests.{Json, Request, SameTx, DiffTx}
use hnb_blockchain.Contract.Amount.{amount_value, parse_value, parse_value_checked, balance_of}
use hnb_blockchain.Contract.Hnb.{hnb_chain}

abbrev pub same : ℕ
same = 1

abbrev pub diff : ℕ
diff = 2

abbrev pub balance : ℕ
balance = 1

abbrev pub user : List Bytes
user = codes "68175250cadc6f2524f55e891e244116fec4b690" ∷ []

unfoldable pub install_all : List Bytes → ContractApi → ContractApi
install_all [] ca = ca
install_all (v ∷ vs) ca =
    install_all vs (put_state (hex_to_byte v) (amount_value (pos 10000000)) ca)

-- `InstallContract`
unfoldable pub install_contract : ContractApi → ContractApi
unfolding install_all
install_contract ca = install_all user ca

-- The receiver's balance: the error of `ParseInt` is dropped, the number is kept.
unfoldable pub lenient_balance : Option Value → ℤ
lenient_balance none = pos 0
lenient_balance (some v) = (parse_value v).0

module _ (ledger : Ledger) where
  -- The sender's entry, which must be there and be a number.
  unfoldable pub input_of : ContractApi → Result ℤ
  input_of ca = elim (get_state ledger ca.from ca) [
    | err e ↦ err e
    | ok none ↦ err Error.input_not_exist
    | ok (some v) ↦ parse_value_checked v
  ]

  unfoldable pub check_same_pro : SameTx → Action ContractApi (Unit {0})
  unfolding input_of
  check_same_pro hx ca =
      (do
        fail_if (bytes_equal ca.from hx.output_addr) Error.same_address
        input_amount ← reads input_of
        fail_if (ltb_ℤ input_amount hx.amount) Error.insufficient_balance)
        ca

  unfoldable pub same_pro : SameTx → Action ContractApi (Unit {0})
  same_pro hx ca =
      (do
        fail_if (bytes_equal ca.from hx.output_addr) Error.same_address
        input_amount ← reads input_of
        fail_if (ltb_ℤ input_amount hx.amount) Error.insufficient_balance
        output ← reads (get_state ledger hx.output_addr)
        modify (put_state ca.from (amount_value (sub64 input_amount hx.amount)))
        modify (put_state hx.output_addr (amount_value (add64 (lenient_balance output) hx.amount))))
        ca

  unfoldable pub check_diff_pro : DiffTx → Action ContractApi (Unit {0})
  unfolding input_of
  check_diff_pro hx ca =
      (do
        input_amount ← reads input_of
        fail_if (ltb_ℤ input_amount hx.in_amount) Error.insufficient_balance)
        ca

  unfoldable pub diff_pro : DiffTx → Action ContractApi (Unit {0})
  diff_pro hx ca =
      (do
        input_amount ← reads input_of
        fail_if (ltb_ℤ input_amount hx.in_amount) Error.insufficient_balance
        b_amount ← reads (λ s. balance_of (get_other_state ledger hnb_chain hx.output_addr s))
        modify (put_state ca.from (amount_value (sub64 input_amount hx.in_amount)))
        modify (put_other_state hnb_chain hx.output_addr (amount_value (add64 b_amount hx.amount))))
        ca

module _ (json : Json) (ledger : Ledger) where
  unfoldable pub check_request : Request → Action ContractApi (Unit {0})
  check_request hx =
      if hx.tx_type == same
      then lift (or_fail (json.same_tx hx.payload) Error.bad_request) >>= check_same_pro ledger
      else if hx.tx_type == diff
      then lift (or_fail (json.diff_tx hx.payload) Error.bad_request) >>= check_diff_pro ledger
      else pure tt

  unfoldable pub check_tx : Action ContractApi (Unit {0})
  unfolding check_request
  check_tx ca = (lift (or_fail (json.request ca.args) Error.bad_request) >>= check_request) ca

  unfoldable pub invoke_request : Request → Action ContractApi (Unit {0})
  invoke_request hx =
      if hx.tx_type == same
      then lift (or_fail (json.same_tx hx.payload) Error.bad_request) >>= same_pro ledger
      else if hx.tx_type == diff
      then lift (or_fail (json.diff_tx hx.payload) Error.bad_request) >>= diff_pro ledger
      else pure tt

  unfoldable pub invoke : Action ContractApi (Unit {0})
  unfolding invoke_request
  invoke ca = (lift (or_fail (json.request ca.args) Error.bad_request) >>= invoke_request) ca

  -- The stored value of an address, where the query asks for it.
  unfoldable pub query_request : Request → Action ContractApi (Option Value)
  query_request qh =
      if qh.tx_type == balance then reads (get_state ledger qh.payload) else pure none

  unfoldable pub query : Action ContractApi (Option Value)
  unfolding query_request
  query ca = (lift (or_fail (json.request ca.args) Error.bad_request) >>= query_request) ca
