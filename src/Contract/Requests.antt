-- ===== src/Contract/Requests.antt =====
-- The transactions that the contracts decode, and the decoders. `json.Unmarshal` runs on bytes that
-- a sender chose, so it is a parameter: any function from bytes to a request or a failure.
use hnb_blockchain.Prelude.{ℕ, Option}
use hnb_blockchain.Prelude.Int.{ℤ}
use hnb_blockchain.Prelude.Bytes.{Bytes}

pub record SameTx : Type 0 where
  pub output_addr : Bytes
  pub amount : ℤ

pub record DiffTx : Type 0 where
  pub output_addr : Bytes
  pub amount : ℤ
  pub in_amount : ℤ

-- `HnbTx`, `HgsTx`, `QryHnbTx` and `QryHgsTx`: a type and a payload that is decoded by type.
pub record Request : Type 0 where
  pub tx_type : ℕ
  pub payload : Bytes

-- A nil slice is `none`.
pub record VoteInfo : Type 0 where
  pub from_addr : Option Bytes
  pub candidate : Option Bytes
  pub voting_power : ℤ
  pub vote_epoch : ℕ

pub record Json : Type 0 where
  pub request : Bytes → Option Request
  pub same_tx : Bytes → Option SameTx
  pub diff_tx : Bytes → Option DiffTx
  pub vote_info : Bytes → Option VoteInfo
