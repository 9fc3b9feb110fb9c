-- ===== src/Consensus/Dbft/Entering.antt =====
-- consensus/dbft/epochChangeHandler.go and consensus/dbft/dbftManager.go: a proposed epoch is checked
-- against the node's own selection and entered.
pub mod Matching
pub mod Guards
pub mod Resetting
use hnb_blockchain.Prelude.{
  ℕ, ◌+◌, ◌%◌, ◌^◌, ◌==◌, ◌&&◌, ltb, not, Bool, true, false, if◌then◌else◌, List, [], ◌∷◌, length,
}
use hnb_blockchain.Prelude.Int.{ℤ, pos}
use hnb_blockchain.Prelude.Bytes.{Bytes, bytes_equal}
use hnb_blockchain.Prelude.Result.{
  Result, ok, err, Error, Action, pure, fail_if, lift, reads, modify, ◌>>=◌, ◌>>◌,
}
use hnb_blockchain.Consensus.Dbft.Types.{Validator, NewEpoch, Epoch}
use hnb_blockchain.Consensus.Dbft.Changes.{
  del_epoch_change, del_new_epoch_map, is_more_than_one_thrid_to_candidates,
}
use hnb_blockchain.Consensus.Dbft.Epochs.{is_witness, re_set_begin_blk, set_epoch, del_epoch}
use hnb_blockchain.Consensus.Dbft.Manager.{
  DbftManager, BftHandler, Services, pred64, get_new_epoch_sender_addr, build_new_epoch,
}

-- The inner loop: whether some witness of this node's selection has the hash.
unfoldable pub has_match : (Validator → Bytes) → Validator → List Validator → Bool
has_match hash w [] = false
has_match hash w (v ∷ vs) = if bytes_equal (hash w) (hash v) then true else has_match hash w vs

unfoldable pub all_match : (Validator → Bytes) → List Validator → List Validator → Bool
unfolding has_match
all_match hash [] own = true
all_match hash (w ∷ ws) own = if has_match hash w own then all_match hash ws own else false

unfoldable pub check_new_epoch_match : (Validator → Bytes) → Epoch → Epoch → Bool
unfolding all_match
check_new_epoch_match hash net own =
    if not (net.begin_num == own.begin_num)
    then false
    else if not (net.end_num == own.end_num)
    then false
    else if not (net.depend_epoch_no == own.depend_epoch_no)
    then false
    else if not (length net.witness_list == length own.witness_list)
    then false
    else all_match hash net.witness_list own.witness_list

-- The record of the epoch that goes with the validators.
unfoldable pub epoch_info : ℤ → Epoch → DbftManager → Epoch
epoch_info target_blk_count new_epoch dm = record {
  epoch_no = new_epoch.epoch_no;
  depend_epoch_no = new_epoch.depend_epoch_no;
  begin_num = dm.bft_handler.height;
  end_num = dm.bft_handler.height;
  target_blk_num = target_blk_count;
  witness_list = [];
  is_to_target = false;
}

-- The validators of the agreement protocol, and the manager's epoch.
unfoldable pub set_validators : ℤ → Epoch → DbftManager → DbftManager
unfolding epoch_info
set_validators target_blk_count new_epoch dm = record dm {
  bft_handler = record (dm.bft_handler) {
    witness_list = new_epoch.witness_list;
    validators_epoch = new_epoch.epoch_no;
    extend = epoch_info target_blk_count new_epoch dm;
  };
  epoch = new_epoch;
}

unfoldable pub mark_changed : DbftManager → DbftManager
mark_changed dm =
    if is_witness dm.bft_handler.digest_addr dm.epoch
    then record dm {
      bft_handler = record (dm.bft_handler) {
        last_height_validators_changed = dm.bft_handler.height;
      };
    }
    else dm

-- The end of `ResetEpoch`: the counters, the list of epochs, and what is kept of the epoch before.
unfoldable pub close_previous : Epoch → DbftManager → DbftManager
close_previous new_epoch dm = record dm {
  blk_timeout_count = 0;
  candidate_no = (new_epoch.epoch_no + 1) % 2 ^ 64;
  epoch_change_cache = dm.bft_handler.height ∷ dm.epoch_change_cache;
  epoch_list = del_epoch (pred64 new_epoch.epoch_no) (set_epoch new_epoch dm.epoch_list);
  epoch_change = del_epoch_change (pred64 new_epoch.epoch_no) dm.epoch_change;
  new_epoch = del_new_epoch_map (pred64 new_epoch.epoch_no) dm.new_epoch;
  voted_cache = [];
}

module _ (s : Services) where
  abbrev pub load_candidates : ℕ → DbftManager → DbftManager
  load_candidates epoch_no dm = record dm { total_validators = s.load_total_validators epoch_no }

  -- `Stop` may fail, which is logged only.
  unfoldable pub reset_epoch : Epoch → Action DbftManager (Unit {0})
  unfolding set_validators mark_changed close_previous
  reset_epoch new_epoch = do
    reads (λ dm. s.unfreeze_token dm.epoch.epoch_no)
    lift s.reset
    modify (set_validators s.target_blk_count new_epoch)
    modify (load_candidates new_epoch.epoch_no)
    modify mark_changed
    modify (close_previous new_epoch)
    lift s.start

  unfoldable pub net_epoch : NewEpoch → List Validator → Epoch
  net_epoch ne witnesses = record {
    epoch_no = ne.epoch_no;
    depend_epoch_no = ne.depend_epoch_no;
    begin_num = ne.begin;
    end_num = ne.end;
    target_blk_num = pos 0;
    witness_list = witnesses;
    is_to_target = false;
  }

  -- `HandleNewEpoch` with the decoded message.
  unfoldable pub handle_new_epoch : NewEpoch → Action DbftManager NewEpoch
  unfolding net_epoch
  handle_new_epoch ne dm =
      (do
        fail_if (ltb ne.epoch_no dm.candidate_no) Error.epoch_old
        addr ← reads (get_new_epoch_sender_addr ne.epoch_no)
        fail_if (not (bytes_equal ne.digest_addr addr)) Error.sender_unexpected
        fail_if
            (not (
              is_more_than_one_thrid_to_candidates ne.epoch_no (length dm.total_validators)
                dm.epoch_change))
            Error.changes_too_few
        own ← build_new_epoch s
        witnesses ← lift (s.decode_witnesses ne.witnesss)
        fail_if
            (not (
              check_new_epoch_match s.hash (net_epoch ne witnesses)
                (re_set_begin_blk dm.bft_handler.height own)))
            Error.epoch_mismatch
        reset_epoch (net_epoch ne witnesses)
        pure ne)
        dm
