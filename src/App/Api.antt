-- ===== src/App/Api.antt =====
-- appMgr/state.go: the interface through which a contract reads and writes its state.
pub mod Laws
use hnb_blockchain.Prelude.{Bool, true, false, List, [], ◌∷◌, Option, none, some}
use hnb_blockchain.Prelude.Bytes.{Bytes}
use hnb_blockchain.Prelude.Assoc.{Dict}
use hnb_blockchain.Prelude.Result.{Result, ok, err}
use hnb_blockchain.State.{Value, StateItem, ItemState, unchanged, changed, deleted, Ledger}
use hnb_blockchain.App.StateCache
use hnb_blockchain.App.StateCache.{StateCache}

pub record ContractApi : Type 0 where
  pub args : Bytes
  pub sc : StateCache
  pub chain_id : Bytes
  pub from : Bytes

-- `GetContractApi`
unfoldable pub get_contract_api : Bytes → ContractApi
get_contract_api chain_id = record {
  args = [];
  sc = StateCache.empty;
  chain_id = chain_id;
  from = [];
}

unfoldable pub is_deleted : Option StateItem → Bool
is_deleted none = false
is_deleted (some v) = elim v.state [ deleted ↦ true | _ ↦ false ]

-- `isDelState`
unfoldable pub is_del_state : Bytes → Bytes → ContractApi → Bool
unfolding is_deleted
is_del_state chain_id key s = is_deleted (StateCache.get chain_id key s.sc)

-- A hit in the cache answers, also with a nil value; a miss goes to the ledger.
unfoldable pub cached : Result (Option Value) → Option StateItem → Result (Option Value)
cached below none = below
cached below (some v) = ok v.value

module _ (ledger : Ledger) where
  unfoldable pub get_other_state : Bytes → Bytes → ContractApi → Result (Option Value)
  unfolding is_del_state cached
  get_other_state chain_id key s = elim (is_del_state chain_id key s) [
    | true ↦ ok none
    | false ↦ cached (ledger chain_id key) (StateCache.get chain_id key s.sc)
  ]

  unfoldable pub get_state : Bytes → ContractApi → Result (Option Value)
  unfolding is_del_state cached
  get_state key s = elim (is_del_state s.chain_id key s) [
    | true ↦ ok none
    | false ↦ cached (ledger s.chain_id key) (StateCache.get s.chain_id key s.sc)
  ]

unfoldable pub put_other_state : Bytes → Bytes → Value → ContractApi → ContractApi
put_other_state chain_id key value s = record s { sc = StateCache.put chain_id key value s.sc }

unfoldable pub put_state : Bytes → Value → ContractApi → ContractApi
put_state key value s = record s { sc = StateCache.put s.chain_id key value s.sc }

unfoldable pub del_state : Bytes → ContractApi → ContractApi
del_state key s = record s { sc = StateCache.delete s.chain_id key s.sc }

unfoldable pub get_all_state : ContractApi → List StateItem
get_all_state s = StateCache.find s.sc

unfoldable pub set_args : Bytes → ContractApi → ContractApi
set_args args s = record s { args = args }

unfoldable pub set_from : Bytes → ContractApi → ContractApi
set_from address s = record s { from = address }
