-- ===== src/Consensus/Dbft/Steps.antt =====
-- consensus/dbft/dbftManager.go: the steps that the manager's routines take, one at a time, and the
-- states that they lead to.
pub mod Progress
use hnb_blockchain.Prelude.{ℕ, ◌+◌, ◌^◌, ◌<◌}
use hnb_blockchain.Prelude.Result.{Result, ok, err, Error, Action, ◌>>=◌}
use hnb_blockchain.Consensus.Dbft.Types.{EpochChange, NewEpoch, Epoch}
use hnb_blockchain.Consensus.Dbft.Changes.{set_new_epoch_map}
use hnb_blockchain.Consensus.Dbft.Epochs.{re_set_begin_blk}
use hnb_blockchain.Consensus.Dbft.Manager.{
  DbftManager, Services, build_new_epoch, handle_epoch_change,
}
use hnb_blockchain.Consensus.Dbft.Entering.{reset_epoch, handle_new_epoch}

-- A proposal that was entered is kept.
unfoldable pub record_entered : Result NewEpoch × DbftManager → Result (Unit {0}) × DbftManager
record_entered (err e, dm) = (err e, dm)
record_entered (ok ne, dm) = (ok tt, record dm { new_epoch = set_new_epoch_map ne dm.new_epoch })

module _ (s : Services) where
  -- `PeerMsgRoutineListener` on a proposal. The channel that wakes a waiting routine is left out.
  unfoldable pub receive_new_epoch : NewEpoch → Action DbftManager (Unit {0})
  unfolding record_entered
  receive_new_epoch ne dm = record_entered (handle_new_epoch s ne dm)

  -- `FullBlkChangeServer` on a full epoch: the node enters the candidate epoch by itself.
  unfoldable pub enter_selected : Result Epoch × DbftManager → Result (Unit {0}) × DbftManager
  enter_selected (err e, dm) = (err e, dm)
  enter_selected (ok epoch, dm) =
      reset_epoch s
        (re_set_begin_blk dm.bft_handler.height (record epoch { epoch_no = dm.candidate_no })) dm

  unfoldable pub full_blk_change : Action DbftManager (Unit {0})
  unfolding enter_selected
  full_blk_change dm = enter_selected (build_new_epoch s dm)

  -- The numbers of epochs stay below the last one of 64 bits.
  pub data Step : DbftManager → DbftManager → Type 0 where
    request :
        (ec : EpochChange) (sender : ℕ) (dm : DbftManager)
        → Step dm (handle_epoch_change s ec sender dm).1
    proposal :
        (ne : NewEpoch) (dm : DbftManager)
        → ne.epoch_no + 1 < 2 ^ 64
        → Step dm (receive_new_epoch ne dm).1
    full : (dm : DbftManager) → dm.candidate_no + 1 < 2 ^ 64 → Step dm (full_blk_change dm).1

  pub data Steps : DbftManager → DbftManager → Type 0 where
    stay : (dm : DbftManager) → Steps dm dm
    then_step : (a b c : DbftManager) → Steps a b → Step b c → Steps a c
