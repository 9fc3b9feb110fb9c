-- ===== src/Consensus/Algorand/HeightVoteSet.antt =====
-- consensus/algorand/types/height_vote_set.go: the vote sets of one height, by rounds.
--
-- A result of `none` is a panic of the source, or in SetRound a loop that never ends.
pub mod Rounds
use hnb_blockchain.Prelude.{
  ℕ, zero, suc, ◌+◌, ◌-◌, ◌^◌, ◌==◌, if◌then◌else◌, Bool, true, false, Option, none, some, List, [],
  ◌∷◌, ◌++◌,
}
use hnb_blockchain.Prelude.Bytes.{Bytes}
use hnb_blockchain.Prelude.Assoc.{Dict, lookup, insert}
use hnb_blockchain.Prelude.Int.{ℤ, pos, negsuc, pos_part, ◌+ℤ◌, ◌-ℤ◌}
use hnb_blockchain.Consensus.Dbft.Types.{Validator}
use hnb_blockchain.Consensus.Algorand.Types.{
  PartSetHeader, BlockId, Vote, equal_ℤ, vote_type_prevote, vote_type_precommit, is_vote_type_valid,
}
use hnb_blockchain.Consensus.Algorand.VoteSet
use hnb_blockchain.Consensus.Algorand.VoteSet.{
  VoteSet, VoteError, new_vote_set, two_thirds_majority,
}

pub record RoundVoteSet : Type 0 where
  pub prevotes : VoteSet
  pub precommits : VoteSet

abbrev pub Rounds : Type 0
Rounds = List (ℤ × RoundVoteSet)

unfoldable pub round_at : ℤ → Rounds → Option RoundVoteSet
round_at r [] = none
round_at r ((s, rvs) ∷ m) = if equal_ℤ s r then some rvs else round_at r m

unfoldable pub put_round : ℤ → RoundVoteSet → Rounds → Rounds
put_round r rvs [] = (r, rvs) ∷ []
put_round r rvs ((s, x) ∷ m) = if equal_ℤ s r then (r, rvs) ∷ m else (s, x) ∷ put_round r rvs m

pub record HeightVoteSet : Type 0 where
  pub height : ℕ
  pub val_set : List Validator
  pub round : ℤ
  pub round_vote_sets : Rounds
  pub peer_catchup_rounds : Dict (List ℤ)

abbrev pub round_added : ℤ → Option VoteSet → Option VoteSet → HeightVoteSet → Option HeightVoteSet
round_added r (some prevotes) (some precommits) hvs = some (record hvs {
  round_vote_sets =
      put_round r (record { prevotes = prevotes; precommits = precommits }) hvs.round_vote_sets;
})
round_added r (some prevotes) none hvs = none
round_added r none precommits hvs = none

-- The set of an existing round is replaced; the error is made and dropped.
unfoldable pub add_round : ℤ → HeightVoteSet → Option HeightVoteSet
unfolding put_round
add_round r hvs =
    round_added r (new_vote_set hvs.height r vote_type_prevote hvs.val_set)
      (new_vote_set hvs.height r vote_type_precommit hvs.val_set) hvs

unfoldable pub new_blk_num_vote_set : ℕ → List Validator → Option HeightVoteSet
unfolding add_round
new_blk_num_vote_set height val_set = add_round (pos 0) (record {
  height = height;
  val_set = val_set;
  round = pos 0;
  round_vote_sets = [];
  peer_catchup_rounds = [];
})

-- A round that a peer's votes opened is kept.
abbrev pub open_round : ℤ → Option RoundVoteSet → HeightVoteSet → Option HeightVoteSet
open_round r (some rvs) hvs = some hvs
open_round r none hvs = add_round r hvs

-- `n` rounds from the round `r` on.
unfoldable pub open_rounds : ℕ → ℤ → Option HeightVoteSet → Option HeightVoteSet
unfolding add_round round_at
open_rounds n r none = none
open_rounds zero r (some hvs) = some hvs
open_rounds (suc n) r (some hvs) =
    open_rounds n (r +ℤ pos 1) (open_round r (round_at r hvs.round_vote_sets) hvs)

abbrev pub at_round : ℤ → Option HeightVoteSet → Option HeightVoteSet
at_round r none = none
at_round r (some hvs) = some (record hvs { round = r })

-- The counter of the loop is an `int32` that never passes the largest one.
unfoldable pub set_round : ℤ → HeightVoteSet → Option HeightVoteSet
unfolding open_rounds
set_round r hvs =
    if equal_ℤ r (pos (2 ^ 31 - 1))
    then none
    else at_round r (open_rounds (pos_part (r -ℤ hvs.round)) (hvs.round +ℤ pos 1) (some hvs))

abbrev pub of_type : ℕ → RoundVoteSet → Option VoteSet
of_type type_ rvs =
    if type_ == vote_type_prevote
    then some rvs.prevotes
    else if type_ == vote_type_precommit
    then some rvs.precommits
    else none

abbrev pub of_round : ℕ → Option RoundVoteSet → Option VoteSet
of_round type_ none = none
of_round type_ (some rvs) = of_type type_ rvs

unfoldable pub get_vote_set : ℤ → ℕ → HeightVoteSet → Option VoteSet
unfolding round_at
get_vote_set r type_ hvs = of_round type_ (round_at r hvs.round_vote_sets)

-- The vote sets are shared by reference, so a change of one shows in its round.
abbrev pub with_type : ℕ → VoteSet → RoundVoteSet → RoundVoteSet
with_type type_ vs rvs =
    if type_ == vote_type_prevote
    then record rvs { prevotes = vs }
    else record rvs { precommits = vs }

abbrev pub stored : ℤ → ℕ → VoteSet → Option RoundVoteSet → HeightVoteSet → HeightVoteSet
stored r type_ vs none hvs = hvs
stored r type_ vs (some rvs) hvs = record hvs {
  round_vote_sets = put_round r (with_type type_ vs rvs) hvs.round_vote_sets;
}

abbrev pub Added : Type 0
Added = (Bool × Option VoteError) × HeightVoteSet

abbrev pub vote_added : Vote → Option VoteSet.Added → HeightVoteSet → Option Added
vote_added vote none hvs = none
vote_added vote (some (r, vs)) hvs =
    some (r, stored vote.round vote.type_ vs (round_at vote.round hvs.round_vote_sets) hvs)

abbrev pub add_to : (PartSetHeader → Bytes) → Vote → Option VoteSet → HeightVoteSet → Option Added
add_to part_key vote none hvs = none
add_to part_key vote (some vs) hvs = vote_added vote (VoteSet.add_vote part_key (some vote) vs) hvs

abbrev pub or_none : Option (List ℤ) → List ℤ
or_none none = []
or_none (some l) = l

abbrev pub catch_up : (PartSetHeader → Bytes) → Vote → Bytes → Option HeightVoteSet → Option Added
catch_up part_key vote peer none = none
catch_up part_key vote peer (some hvs) =
    add_to part_key vote (get_vote_set vote.round vote.type_ hvs) (record hvs {
      peer_catchup_rounds =
          insert peer (or_none (lookup peer hvs.peer_catchup_rounds) ++ vote.round ∷ [])
            hvs.peer_catchup_rounds;
    })

abbrev pub add_or_open :
    (PartSetHeader → Bytes) → Vote → Bytes → Option VoteSet → HeightVoteSet → Option Added
add_or_open part_key vote peer none hvs = catch_up part_key vote peer (add_round vote.round hvs)
add_or_open part_key vote peer (some vs) hvs = add_to part_key vote (some vs) hvs

unfoldable pub add_vote : (PartSetHeader → Bytes) → Vote → Bytes → HeightVoteSet → Option Added
unfolding get_vote_set add_round
add_vote part_key vote peer hvs =
    if is_vote_type_valid vote.type_
    then add_or_open part_key vote peer (get_vote_set vote.round vote.type_ hvs) hvs
    else some ((false, none), hvs)

abbrev pub majority_of : Option VoteSet → Option BlockId
majority_of none = none
majority_of (some vs) = two_thirds_majority vs

abbrev pub first_of : ℤ → Option BlockId → Option (ℤ × BlockId) → Option (ℤ × BlockId)
first_of r (some b) rest = some (r, b)
first_of r none rest = rest

-- From the round down to round 0; `none` is the round -1 of the source.
unfoldable pub pol_from : ℕ → HeightVoteSet → Option (ℤ × BlockId)
unfolding get_vote_set
pol_from zero hvs = first_of (pos 0) (majority_of (get_vote_set (pos 0) vote_type_prevote hvs)) none
pol_from (suc n) hvs =
    first_of (pos (suc n)) (majority_of (get_vote_set (pos (suc n)) vote_type_prevote hvs))
      (pol_from n hvs)

abbrev pub pol_at : ℤ → HeightVoteSet → Option (ℤ × BlockId)
pol_at (pos n) hvs = pol_from n hvs
pol_at (negsuc n) hvs = none

unfoldable pub pol_info : HeightVoteSet → Option (ℤ × BlockId)
unfolding pol_from
pol_info hvs = pol_at hvs.round hvs
