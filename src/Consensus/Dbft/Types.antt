-- ===== src/Consensus/Dbft/Types.antt =====
-- consensus/dbft/common/msg.go, consensus/dbft/epoch.go and the validators of
-- consensus/algorand/types/validator.go.
use hnb_blockchain.Prelude.{ℕ, Bool, List}
use hnb_blockchain.Prelude.Int.{ℤ}
use hnb_blockchain.Prelude.Bytes.{Bytes}

pub record Validator : Type 0 where
  pub address : Bytes
  pub pub_key_str : Bytes
  pub voting_power : ℤ
  pub accum : ℤ

-- A node asks for the change to an epoch.
pub record EpochChange : Type 0 where
  pub epoch_no : ℕ
  pub depend_epoch_no : ℕ
  pub digest_addr : Bytes
  pub height : ℕ
  pub hash : Bytes
  pub is_timeout : Bool

-- The proposal of a new epoch, whose witnesses are encoded.
pub record NewEpoch : Type 0 where
  pub epoch_no : ℕ
  pub depend_epoch_no : ℕ
  pub digest_addr : Bytes
  pub witnesss : Bytes
  pub begin : ℕ
  pub end : ℕ

pub record Epoch : Type 0 where
  pub epoch_no : ℕ
  pub depend_epoch_no : ℕ
  pub begin_num : ℕ
  pub end_num : ℕ
  pub target_blk_num : ℤ
  pub witness_list : List Validator
  pub is_to_target : Bool
