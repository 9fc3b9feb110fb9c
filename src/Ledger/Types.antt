-- ===== src/Ledger/Types.antt =====
-- ledger/blockStore/common/struct.go, common/transaction.go, ledger/nonceStore/common/server.go.
use hnb_blockchain.Prelude.{ℕ, List}
use hnb_blockchain.Prelude.Bytes.{Bytes}
use hnb_blockchain.State.{Value}
use hnb_blockchain.Ledger.Store.{KvStore, Cache}

-- The signature's three numbers are kept in `signature`.
pub record Transaction : Type 0 where
  pub contract_name : Bytes
  pub payload : Bytes
  pub txid : Bytes
  pub from : Bytes
  pub nonce_value : ℕ
  pub signature : ℕ × ℕ × ℕ

pub record Header : Type 0 where
  pub block_num : ℕ
  pub previous_hash : Bytes
  pub create_time : ℕ
  pub sender_id : Bytes
  pub cons_args : Bytes
  pub ext : Bytes
  pub txs_hash : Bytes
  pub state_hash : Bytes

pub record Block : Type 0 where
  pub header : Header
  pub txs : List Transaction

pub record NonceItem : Type 0 where
  pub key : Bytes
  pub nonce : ℕ

-- The two databases, and the caches of the three stores over them.
pub record Backend : Type 1 where
  pub db : KvStore Value
  pub block_db : KvStore Block
  pub states : Cache Bytes Value
  pub nonces : Cache Bytes ℕ
  pub blocks : Cache ℕ Block
