-- ===== src/State.antt =====
-- ledger/stateStore/common/server.go: the entries of the contracts' state.
use hnb_blockchain.Prelude.{ℕ, List, Option}
use hnb_blockchain.Prelude.Int.{ℤ}
use hnb_blockchain.Prelude.Bytes.{Bytes}
use hnb_blockchain.Prelude.Assoc.{Dict}
use hnb_blockchain.Prelude.Result.{Result}

-- contract/hnb/vote.go: one vote of an epoch, with the tokens that it froze.
pub record VoteRecord : Type 0 where
  pub from_addr : Bytes
  pub voting_power : ℤ

-- What stands under a key of the database. The contracts store decimal texts and JSON documents of
-- two types, `map[string]int64` and `[]*VoteRecord`; the ledger stores numbers in eight bytes and
-- the JSON of a transaction's place. A document is kept as the value that it encodes.
pub data Value : Type 0 where
  text : Bytes → Value
  raw64 : ℕ → Value
  tx_index : ℕ → ℕ → Value
  vote_map : Dict ℤ → Value
  vote_records : List VoteRecord → Value

pub data ItemState : Type 0 where
  unchanged changed deleted : ItemState

-- A nil `Value` is `none`.
pub record StateItem : Type 0 where
  pub key : Bytes
  pub value : Option Value
  pub state : ItemState
  pub chain_id : Bytes

-- `ledger.GetContractState`: a nil slice is `none`.
abbrev pub Ledger : Type 0
Ledger = Bytes → Bytes → Result (Option Value)
