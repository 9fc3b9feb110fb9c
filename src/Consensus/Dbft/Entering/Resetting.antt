-- ===== src/Consensus/Dbft/Entering/Resetting.antt =====
-- What entering an epoch leaves in the manager.
use hnb_blockchain.Prelude.{ℕ, ◌+◌, ◌%◌, ◌^◌, ◌<◌, ◌==◌, ◌≡◌, refl, some, [], arith, if◌then◌else◌}
use hnb_blockchain.Prelude.Result.{ok}
use hnb_blockchain.Consensus.Dbft.Types.{Epoch}
use hnb_blockchain.Consensus.Dbft.Changes.{del_epoch_change}
use hnb_blockchain.Consensus.Dbft.Epochs.{set_epoch, del_epoch}
use hnb_blockchain.Consensus.Dbft.Manager.{DbftManager, Services, pred64}
use hnb_blockchain.Consensus.Dbft.Entering.{
  reset_epoch, set_validators, mark_changed, close_previous,
}

module _ (s : Services) (e : Epoch) (dm : DbftManager) where
  abbrev pub entered : DbftManager
  entered = close_previous e (
      mark_changed (record (set_validators s.target_blk_count e dm) {
        total_validators = s.load_total_validators e.epoch_no;
      }))

  pub reset_epoch-entered :
      s.unfreeze_token dm.epoch.epoch_no ≡ ok tt
      → s.reset ≡ ok tt
      → reset_epoch s e dm ≡ (s.start, entered)
  unfolding reset_epoch
  reset_epoch-entered unfrozen ready = ground (arith, unfrozen, ready)

  pub epoch_entered : entered.epoch ≡ e
  unfolding close_previous mark_changed set_validators
  epoch_entered = ground arith

  listed : entered.epoch_list.list e.epoch_no ≡ some (some e)
  unfolding close_previous set_epoch del_epoch
  listed = ground arith

  validators_entered : entered.total_validators ≡ s.load_total_validators e.epoch_no
  unfolding close_previous mark_changed set_validators
  validators_entered = ground arith

  witnesses_entered : entered.bft_handler.witness_list ≡ e.witness_list
  unfolding close_previous mark_changed set_validators
  witnesses_entered = ground arith

  requests_entered :
      (n : ℕ)
      → entered.epoch_change.ec_list n
        ≡ (if n == pred64 e.epoch_no then [] else dm.epoch_change.ec_list n)
  unfolding close_previous mark_changed set_validators del_epoch_change
  requests_entered n = ground arith

  -- Where the frozen tokens are given back and the agreement protocol is reset, the node enters the
  -- epoch, whose number fits in 64 bits: its candidate number is the next one, the epoch's validators
  -- are the candidates, the epoch is listed, its witnesses run the protocol, and of the requests for
  -- a change only those for the epoch before are dropped. The result is that of the protocol's start.
  pub reset_epoch_enters :
      e.epoch_no < 2 ^ 64
      → s.unfreeze_token dm.epoch.epoch_no ≡ ok tt
      → s.reset ≡ ok tt
      → let (r, dm') = reset_epoch s e dm in
        (r ≡ s.start)
        × (dm'.epoch ≡ e)
        × (dm'.candidate_no ≡ (e.epoch_no + 1) % 2 ^ 64)
        × (dm'.total_validators ≡ s.load_total_validators e.epoch_no)
        × (dm'.epoch_list.list e.epoch_no ≡ some (some e))
        × (dm'.bft_handler.witness_list ≡ e.witness_list)
        × ((n : ℕ)
            → dm'.epoch_change.ec_list n
              ≡ (if n == pred64 e.epoch_no then [] else dm.epoch_change.ec_list n))
  reset_epoch_enters fits unfrozen ready = rw (reset_epoch-entered unfrozen ready) (
    refl,
    epoch_entered,
    unfold close_previous in refl,
    validators_entered,
    listed,
    witnesses_entered,
    λ n. requests_entered n,
  )
