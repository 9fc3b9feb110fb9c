-- ===== src/Consensus/Dbft/Entering/Guards.antt =====
-- What a node has checked when it enters a proposed epoch.
use hnb_blockchain.Prelude.{◌≤◌, ◌≡◌, true, length, [], arith}
use hnb_blockchain.Prelude.Bytes.{Bytes, bytes_equal_iff}
use hnb_blockchain.Prelude.Result.{Result, ok, err}
use hnb_blockchain.Consensus.Dbft.Types.{NewEpoch}
use hnb_blockchain.Consensus.Dbft.Changes.{is_more_than_one_thrid_to_candidates}
use hnb_blockchain.Consensus.Dbft.Manager.{DbftManager, Services, get_new_epoch_sender_addr}
use hnb_blockchain.Consensus.Dbft.Entering.{handle_new_epoch}

abbrev known_sender : Result Bytes → Bytes
known_sender (ok a) = a
known_sender (err e) = []

-- A proposal that is accepted is not for an epoch below the node's candidate, comes from the
-- proposer that the node expects, and is for an epoch for which the requests that the node has recorded
-- are more than a third of the number of validators, a sender that repeats its request counting again.
pub handle_new_epoch_guards :
    (s : Services) (ne : NewEpoch) (dm : DbftManager)
    → (handle_new_epoch s ne dm).0 ≡ ok ne
    → (dm.candidate_no ≤ ne.epoch_no)
      × (get_new_epoch_sender_addr ne.epoch_no dm ≡ ok ne.digest_addr)
      × (is_more_than_one_thrid_to_candidates ne.epoch_no
            (length dm.total_validators)
            dm.epoch_change
          ≡ true)
unfolding handle_new_epoch
handle_new_epoch_guards s ne dm h = (
  ground arith,
  ground (
    arith,
    bytes_equal_iff ne.digest_addr (known_sender (get_new_epoch_sender_addr ne.epoch_no dm)),
  ),
  ground arith,
)
