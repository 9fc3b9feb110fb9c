-- ===== src/Tests/Agreement.antt =====
-- Sets of votes: concrete inputs.
use hnb_blockchain.Prelude.{◌≡◌, refl, Option, none, some, [], ◌∷◌, arith}
use hnb_blockchain.Prelude.Bytes.{Bytes, codes, bytes_equal}
use hnb_blockchain.Prelude.Assoc.{lookup, insert}
use hnb_blockchain.Prelude.Int.{pos, wrap64, add64, sub64, mul64, ◌*ℤ◌, ◌+ℤ◌, ◌-ℤ◌}
use hnb_blockchain.Consensus.Dbft.Types.{Validator}
use hnb_blockchain.Consensus.Algorand.Types.{
  PartSetHeader, BlockId, Vote, key, block_id_equals, header_equals, total_voting_power, two_thirds,
  add_powers, safe_add, safe_add_clip, vote_type_precommit, vote_type_prevote,
}
use hnb_blockchain.Consensus.Algorand.VoteSet.{
  VoteSet, Added, add_vote, empty_vote_set, new_vote_set, two_thirds_majority, quorum, tally,
  count_in, new_block_votes, get_vote, add_verified_vote,
}
use hnb_blockchain.Consensus.Algorand.VoteSet.Tallied.{IsTallied}
use hnb_blockchain.Consensus.Algorand.VoteSet.Returning.{
  add_vote-IsTallied, empty_vote_set-IsTallied,
}
use hnb_blockchain.Consensus.Algorand.HeightVoteSet.{HeightVoteSet, pol_info}
use hnb_blockchain.Consensus.Algorand.HeightVoteSet.Rounds.{IsLatest, pol_info-IsLatest}
use hnb_blockchain.Consensus.Algorand.VoteSet.Agreement.{
  opened, voted, HaveDoubles, majorities_overlap,
}

abbrev header_key : PartSetHeader → Bytes
header_key h = h.hash

abbrev validator : Validator
validator = record {
  address = codes "v";
  pub_key_str = codes "key";
  voting_power = pos 1;
  accum = pos 0;
}

abbrev block_named : Bytes → BlockId
block_named hash = record { hash = hash; parts_header = record { total = pos 1; hash = codes "p" } }

abbrev vote_for : Bytes → Vote
vote_for hash = record {
  validator_address = codes "v";
  validator_index = pos 0;
  height = 1;
  round = pos 0;
  timestamp = 7;
  type_ = vote_type_precommit;
  block_id = block_named hash;
  signature = [];
}

abbrev votes_at_start : VoteSet
votes_at_start = empty_vote_set 1 (pos 0) vote_type_precommit (validator ∷ [])

abbrev left : Option Added → VoteSet
left none = votes_at_start
left (some r) = r.1

abbrev after_vote : Bytes → VoteSet
after_vote hash = left (add_vote header_key (some (vote_for hash)) votes_at_start)

-- The vote of the only validator decides.
decides : two_thirds_majority (after_vote (codes "a")) ≡ some (block_named (codes "a"))
unfolding two_thirds_majority add_vote get_vote add_verified_vote count_in tally new_block_votes
    quorum two_thirds total_voting_power add_powers safe_add_clip safe_add add64 sub64 mul64 wrap64
    ◌*ℤ◌ ◌+ℤ◌ ◌-ℤ◌ lookup insert key bytes_equal block_id_equals header_equals
decides = refl

add_vote-IsTallied_example :
    (r : Added) × (add_vote header_key (some (vote_for (codes "a"))) votes_at_start ≡ some r)
    × IsTallied header_key r.1
add_vote-IsTallied_example =
    add_vote-IsTallied header_key (some (vote_for (codes "a"))) votes_at_start (
      empty_vote_set-IsTallied header_key 1 (pos 0) vote_type_precommit (validator ∷ [])
        (omega arith))

majorities_overlap_example :
    HaveDoubles header_key
      (after_vote (codes "a"))
      (block_named (codes "a"))
      (after_vote (codes "b"))
      (block_named (codes "b"))
unfolding two_thirds_majority add_vote get_vote add_verified_vote count_in tally new_block_votes
    quorum two_thirds total_voting_power add_powers safe_add_clip safe_add add64 sub64 mul64 wrap64
    ◌*ℤ◌ ◌+ℤ◌ ◌-ℤ◌ lookup insert key bytes_equal block_id_equals header_equals new_vote_set
majorities_overlap_example =
    majorities_overlap header_key (after_vote (codes "a")) (after_vote (codes "b"))
      (block_named (codes "a")) (block_named (codes "b"))
      (voted (some (vote_for (codes "a")))
        (opened 1 (pos 0) vote_type_precommit (validator ∷ []) (omega arith) refl) refl)
      (voted (some (vote_for (codes "b")))
        (opened 1 (pos 0) vote_type_precommit (validator ∷ []) (omega arith) refl) refl)
      refl refl (omega arith) refl refl

abbrev prevotes_at_start : VoteSet
prevotes_at_start = empty_vote_set 1 (pos 0) vote_type_prevote (validator ∷ [])

abbrev prevote : Vote
prevote = record (vote_for (codes "a")) { type_ = vote_type_prevote }

-- A majority in round 0, and no vote in round 1.
abbrev two_rounds : HeightVoteSet
two_rounds = record {
  height = 1;
  val_set = validator ∷ [];
  round = pos 1;
  round_vote_sets =
      (
        pos 0,
        record {
          prevotes = left (add_vote header_key (some prevote) prevotes_at_start);
          precommits = votes_at_start;
        },
      )
      ∷ (pos 1, record { prevotes = prevotes_at_start; precommits = votes_at_start })
      ∷ [];
  peer_catchup_rounds = [];
}

pol_info-IsLatest_example : IsLatest two_rounds 1 (pol_info two_rounds)
pol_info-IsLatest_example = pol_info-IsLatest 1 two_rounds refl
