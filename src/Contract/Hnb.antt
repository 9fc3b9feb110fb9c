-- ===== src/Contract/Hnb.antt =====
-- contract/hnb/hnb.go: the HNB token. Every call runs against the contract interface `ca` of the
-- application manager; a call that returns an error may have written before.

pub mod Transfer
pub mod Vote
pub mod Invoke
pub mod Exchange
pub mod Entries
use hnb_blockchain.Prelude.{
  ℕ, Bool, true, false, ◌==◌, if◌then◌else◌, Option, none, some, List, [], ◌∷◌,
}
use hnb_blockchain.Prelude.Int.{ℤ, pos, ltb_ℤ, add64, sub64}
use hnb_blockchain.Prelude.Bytes.{Bytes, codes, bytes_equal}
use hnb_blockchain.Prelude.Result.{
  Result, ok, err, Error, Action, reads, fail_if, modify, ◌>>=◌, ◌>>◌,
}
use hnb_blockchain.State.{Value, Ledger}
use hnb_blockchain.Hex.{hex_to_byte}
use hnb_blockchain.App.Api.{ContractApi, get_state, get_other_state, put_state, put_other_state}
use hnb_blockchain.Contract.Requests.{SameTx, DiffTx}
use hnb_blockchain.Contract.Amount.{amount_value, balance_of}

-- The other token's chain name, and this one's.
abbrev pub hgs_chain : Bytes
hgs_chain = codes "hgs"

abbrev pub hnb_chain : Bytes
hnb_chain = codes "hnb"

abbrev pub total_balance : ℕ
total_balance = 10000000

abbrev pub user : List Bytes
user = codes "68175250cadc6f2524f55e891e244116fec4b690" ∷ []

unfoldable pub install_all : List Bytes → ContractApi → ContractApi
install_all [] ca = ca
install_all (v ∷ vs) ca =
    install_all vs (put_state (hex_to_byte v) (amount_value (pos total_balance)) ca)

-- `InstallContract`
unfoldable pub install_contract : ContractApi → ContractApi
unfolding install_all
install_contract ca = install_all user ca

unfoldable pub set_balance : Bytes → ℤ → ContractApi → ContractApi
set_balance addr amount ca = put_state addr (amount_value amount) ca

unfoldable pub set_other_state_balance : Bytes → Bytes → ℤ → ContractApi → ContractApi
set_other_state_balance chain_id addr amount ca =
    put_other_state chain_id addr (amount_value amount) ca

module _ (ledger : Ledger) where
  unfoldable pub get_balance : Bytes → ContractApi → Result ℤ
  get_balance addr ca = balance_of (get_state ledger addr ca)

  unfoldable pub get_other_state_balance : Bytes → Bytes → ContractApi → Result ℤ
  get_other_state_balance chain_id addr ca = balance_of (get_other_state ledger chain_id addr ca)

  -- A check reads only.
  unfoldable pub check_same_pro : SameTx → Action ContractApi (Unit {0})
  check_same_pro hx ca =
      (do
        fail_if (bytes_equal ca.from hx.output_addr) Error.same_address
        input_amount ← reads (get_balance ca.from)
        fail_if (ltb_ℤ input_amount hx.amount) Error.insufficient_balance)
        ca

  unfoldable pub check_diff_pro : DiffTx → Action ContractApi (Unit {0})
  check_diff_pro hx ca =
      (do
        input_amount ← reads (get_balance ca.from)
        fail_if (ltb_ℤ input_amount hx.in_amount) Error.insufficient_balance)
        ca

  unfoldable pub same_pro : SameTx → Action ContractApi (Unit {0})
  same_pro hx ca =
      (do
        fail_if (bytes_equal ca.from hx.output_addr) Error.same_address
        input_amount ← reads (get_balance ca.from)
        fail_if (ltb_ℤ input_amount hx.amount) Error.insufficient_balance
        b_amount ← reads (get_balance hx.output_addr)
        modify (set_balance ca.from (sub64 input_amount hx.amount))
        modify (set_balance hx.output_addr (add64 b_amount hx.amount)))
        ca

  -- An exchange: `in_amount` of this token is taken, and `amount` of the other is given.
  unfoldable pub diff_pro : DiffTx → Action ContractApi (Unit {0})
  diff_pro hx ca =
      (do
        input_amount ← reads (get_balance ca.from)
        fail_if (ltb_ℤ input_amount hx.in_amount) Error.insufficient_balance
        b_amount ← reads (get_other_state_balance hgs_chain hx.output_addr)
        modify (set_balance ca.from (sub64 input_amount hx.in_amount))
        modify (set_other_state_balance hgs_chain hx.output_addr (add64 b_amount hx.amount)))
        ca
