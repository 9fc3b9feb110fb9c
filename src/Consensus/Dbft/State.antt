-- ===== src/Consensus/Dbft/State.antt =====
-- consensus/dbft/dbftManager.go: the state of the manager, and what it calls outside of it.
use hnb_blockchain.Prelude.{ℕ, ◌+◌, ◌-◌, ◌%◌, ◌^◌, Option, List, []}
use hnb_blockchain.Prelude.Int.{ℤ}
use hnb_blockchain.Prelude.Bytes.{Bytes}
use hnb_blockchain.Prelude.Result.{Result, ok, err}
use hnb_blockchain.Consensus.Dbft.Types.{Validator, EpochChange, NewEpoch, Epoch}
use hnb_blockchain.Consensus.Dbft.Changes.{EpochChangeMap, NewEpochMap}
use hnb_blockchain.Consensus.Dbft.Epochs.{EpochListCache}
use hnb_blockchain.Consensus.Dbft.Witnesses.{Voting}

-- A message before it is encoded and signed.
pub data Message : Type 0 where
  epoch_change_msg : EpochChange → Message
  new_epoch_msg : NewEpoch → Message

-- The parts of the handler of the agreement protocol that a change of epochs reads or sets. The last
-- three are the arguments of `NewValidatorSet`.
pub record BftHandler : Type 0 where
  pub height : ℕ
  pub digest_addr : Bytes
  pub last_height_validators_changed : ℕ
  pub witness_list : List Validator
  pub validators_epoch : ℕ
  pub extend : Epoch

pub record DbftManager : Type 0 where
  pub total_validators : List Validator
  pub cur_height : ℕ
  pub blk_timeout_count : ℕ
  pub bft_number : ℕ
  pub candidate_no : ℕ
  pub epoch : Epoch
  pub epoch_list : EpochListCache
  pub epoch_change : EpochChangeMap
  pub new_epoch : NewEpochMap
  pub epoch_change_cache : List ℕ
  pub voted_cache : List ℕ
  pub bft_handler : BftHandler
  pub internal_msg_queue : List Bytes
  pub broadcasts : List Bytes
  pub sync_requests : List (ℕ × ℕ)

-- What the manager calls outside of it, and two of its settings: `target_blk_count` blocks make an
-- epoch, and `fuel` bounds the passes of the selection of witnesses. `LoadTotalValidators` returns no
-- error: it asks until it has an answer.
pub record Services : Type 0 where
  pub get_block_hash : ℕ → Result Bytes
  pub sign : Message → Result Bytes
  pub encode_witnesses : List Validator → Result Bytes
  pub decode_witnesses : Bytes → Result (List Validator)
  pub hash : Validator → Bytes
  pub voting : Voting
  pub load_epoch_info : ℕ → Result (Option Epoch)
  pub unfreeze_token : ℕ → Result (Unit {0})
  pub reset : Result (Unit {0})
  pub start : Result (Unit {0})
  pub load_total_validators : ℕ → List Validator
  pub target_blk_count : ℤ
  pub fuel : ℕ

-- A block's hash that cannot be read is logged and left empty.
abbrev pub or_nil : Result Bytes → Bytes
or_nil (ok h) = h
or_nil (err e) = []

abbrev pub pred64 : ℕ → ℕ
pred64 n = (n + (2 ^ 64 - 1)) % 2 ^ 64
