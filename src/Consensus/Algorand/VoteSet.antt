-- ===== src/Consensus/Algorand/VoteSet.antt =====
-- consensus/algorand/types/vote.go: VoteSet, which counts the votes of one height, round and type.
--
-- A bit array (consensus/algorand/common/bit_array.go) is the list of its bits, and the one of size 0,
-- which is nil in the source, is the empty list. A result of `none` is a panic of the source.
pub mod Counts
pub mod Tallied
pub mod Adding
pub mod Returning
pub mod Agreement
use hnb_blockchain.Prelude.{
  ℕ, zero, ◌==◌, ltb, leb, if◌then◌else◌, Bool, true, false, not, ◌&&◌, ◌||◌, Option, none, some,
  List, [], ◌∷◌, length, get_elem?, set, replicate,
}
use hnb_blockchain.Prelude.Bytes.{Bytes, bytes_equal}
use hnb_blockchain.Prelude.Assoc.{Dict, lookup, insert}
use hnb_blockchain.Prelude.Int.{ℤ, pos, negsuc, ltb_ℤ, add64, mul64}
use hnb_blockchain.Consensus.Dbft.Types.{Validator}
use hnb_blockchain.Consensus.Algorand.Types.{
  PartSetHeader, BlockId, Vote, key, block_id_equals, equal_ℤ, vote_type_precommit,
  total_voting_power, two_thirds, third,
}

pub data VoteError : Type 0 where
  vote_nil invalid_validator_index invalid_validator_address unexpected_step
        non_deterministic_signature confict :
      VoteError

pub record BlockVotes : Type 0 where
  pub peer_maj23 : Bool
  pub bit_array : List Bool
  pub votes : List (Option Vote)
  pub sum : ℤ

unfoldable pub new_block_votes : Bool → ℕ → BlockVotes
new_block_votes peer_maj23 num_validators = record {
  peer_maj23 = peer_maj23;
  bit_array = replicate num_validators false;
  votes = replicate num_validators none;
  sum = pos 0;
}

-- The vote at the index counts, unless there is one already.
abbrev pub tally_at : Option (Option Vote) → Vote → ℕ → ℤ → BlockVotes → Option BlockVotes
tally_at none vote i power bv = none
tally_at (some (some existing)) vote i power bv = some bv
tally_at (some none) vote i power bv = some (record bv {
  bit_array = set bv.bit_array i true;
  votes = set bv.votes i (some vote);
  sum = add64 bv.sum power;
})

unfoldable pub tally : Vote → ℕ → ℤ → BlockVotes → Option BlockVotes
tally vote i power bv = tally_at (get_elem? bv.votes i) vote i power bv

pub record VoteSet : Type 0 where
  pub height : ℕ
  pub round : ℤ
  pub type_ : ℕ
  pub val_set : List Validator
  pub votes_bit_array : List Bool
  pub votes : List (Option Vote)
  pub sum : ℤ
  pub maj23 : Option BlockId
  pub votes_by_block : Dict BlockVotes
  pub peer_maj23s : Dict BlockId

abbrev pub empty_vote_set : ℕ → ℤ → ℕ → List Validator → VoteSet
empty_vote_set height round type_ val_set = record {
  height = height;
  round = round;
  type_ = type_;
  val_set = val_set;
  votes_bit_array = replicate (length val_set) false;
  votes = replicate (length val_set) none;
  sum = pos 0;
  maj23 = none;
  votes_by_block = [];
  peer_maj23s = [];
}

unfoldable pub new_vote_set : ℕ → ℤ → ℕ → List Validator → Option VoteSet
new_vote_set height round type_ val_set =
    if height == 0 then none else some (empty_vote_set height round type_ val_set)

abbrev pub vote_of_block : ℕ → Option BlockVotes → Option (Option Vote)
vote_of_block i none = some none
vote_of_block i (some bv) = get_elem? bv.votes i

abbrev pub vote_if_key :
    (PartSetHeader → Bytes)
    → Bytes
    → Option (Option Vote)
    → Option (Option Vote)
    → Option (Option Vote)
vote_if_key part_key block_key none other = none
vote_if_key part_key block_key (some none) other = other
vote_if_key part_key block_key (some (some existing)) other =
    if bytes_equal (key part_key existing.block_id) block_key then some (some existing) else other

unfoldable pub get_vote : (PartSetHeader → Bytes) → ℕ → Bytes → VoteSet → Option (Option Vote)
get_vote part_key i block_key vs =
    vote_if_key part_key block_key (get_elem? vs.votes i)
      (vote_of_block i (lookup block_key vs.votes_by_block))

unfoldable pub quorum : VoteSet → ℤ
unfolding two_thirds
quorum vs = add64 (two_thirds vs.val_set) (pos 1)

abbrev pub copy_votes : List (Option Vote) → List (Option Vote) → List (Option Vote)
copy_votes [] votes = votes
copy_votes (o ∷ block_votes) [] = []
copy_votes (none ∷ block_votes) (o ∷ votes) = o ∷ copy_votes block_votes votes
copy_votes (some vote ∷ block_votes) (o ∷ votes) = some vote ∷ copy_votes block_votes votes

-- Only the first block with a quorum is taken.
abbrev pub first_majority : Option BlockId → BlockId → List (Option Vote) → VoteSet → VoteSet
first_majority (some b) block_id block_votes vs = vs
first_majority none block_id block_votes vs = record vs {
  maj23 = some block_id;
  votes = copy_votes block_votes vs.votes;
}

-- What a vote leaves: whether it was added, and the vote that it conflicts with.
abbrev pub Verified : Type 0
Verified = (Bool × Option Vote) × VoteSet

abbrev pub counted : Option BlockVotes → Option Vote → ℤ → Vote → Bytes → VoteSet → Option Verified
counted none conflicting orig_sum vote block_key vs = none
counted (some bv) conflicting orig_sum vote block_key vs =
    let vs' : VoteSet = record vs { votes_by_block = insert block_key bv vs.votes_by_block } in
    some (
      (true, conflicting),
      if ltb_ℤ orig_sum (quorum vs) && not (ltb_ℤ bv.sum (quorum vs))
          then first_majority vs.maj23 vote.block_id bv.votes vs'
          else vs',
    )

unfoldable pub count_in : BlockVotes → Option Vote → Vote → ℕ → Bytes → VoteSet → Option Verified
unfolding tally quorum
count_in bv conflicting vote i block_key vs =
    counted (tally vote i (pos 1) bv) conflicting bv.sum vote block_key vs

-- A vote in conflict with another counts only for a block that a peer claims to have the majority.
abbrev pub count_conflict : Bool → BlockVotes → Vote → Vote → ℕ → Bytes → VoteSet → Option Verified
count_conflict true bv c vote i block_key vs = count_in bv (some c) vote i block_key vs
count_conflict false bv c vote i block_key vs = some ((false, some c), vs)

abbrev pub count_block :
    Option BlockVotes → Option Vote → Vote → ℕ → Bytes → VoteSet → Option Verified
count_block none none vote i block_key vs =
    count_in (new_block_votes false (length vs.val_set)) none vote i block_key vs
count_block none (some c) vote i block_key vs = some ((false, some c), vs)
count_block (some bv) none vote i block_key vs = count_in bv none vote i block_key vs
count_block (some bv) (some c) vote i block_key vs =
    count_conflict bv.peer_maj23 bv c vote i block_key vs

abbrev pub put_vote : Vote → ℕ → VoteSet → VoteSet
put_vote vote i vs = record vs {
  votes = set vs.votes i (some vote);
  votes_bit_array = set vs.votes_bit_array i true;
}

-- The vote replaces the one it conflicts with where it is for the block with the majority.
abbrev pub replace_vote :
    (PartSetHeader → Bytes) → Option BlockId → Vote → ℕ → Bytes → VoteSet → VoteSet
replace_vote part_key none vote i block_key vs = vs
replace_vote part_key (some b) vote i block_key vs =
    if bytes_equal (key part_key b) block_key then put_vote vote i vs else vs

abbrev pub first_vote : Vote → ℕ → VoteSet → VoteSet
first_vote vote i vs = record (put_vote vote i vs) { sum = add64 vs.sum (pos 1) }

abbrev pub verified_at :
    (PartSetHeader → Bytes) → Option (Option Vote) → Vote → ℕ → Bytes → VoteSet → Option Verified
verified_at part_key none vote i block_key vs = none
verified_at part_key (some none) vote i block_key vs =
    count_block (lookup block_key vs.votes_by_block) none vote i block_key (first_vote vote i vs)
verified_at part_key (some (some existing)) vote i block_key vs =
    if block_id_equals existing.block_id vote.block_id
    then none
    else count_block (lookup block_key vs.votes_by_block) (some existing) vote i block_key
        (replace_vote part_key vs.maj23 vote i block_key vs)

-- A vote counts 1, whatever power its validator has.
unfoldable pub add_verified_vote :
    (PartSetHeader → Bytes) → Vote → ℕ → Bytes → VoteSet → Option Verified
unfolding count_in new_block_votes
add_verified_vote part_key vote i block_key vs =
    verified_at part_key (get_elem? vs.votes i) vote i block_key vs

-- Whether the vote was added, and the error.
abbrev pub Added : Type 0
Added = (Bool × Option VoteError) × VoteSet

abbrev pub refused : VoteError → VoteSet → Option Added
refused e vs = some ((false, some e), vs)

abbrev pub reported : Option Verified → Option Added
reported none = none
reported (some ((added, some c), vs)) = some ((added, some confict), vs)
reported (some ((true, none), vs)) = some ((true, none), vs)
reported (some ((false, none), vs)) = none

abbrev pub add_unless :
    (PartSetHeader → Bytes) → Option (Option Vote) → Vote → ℕ → VoteSet → Option Added
add_unless part_key none vote i vs = none
add_unless part_key (some (some existing)) vote i vs = refused non_deterministic_signature vs
add_unless part_key (some none) vote i vs =
    reported (add_verified_vote part_key vote i (key part_key vote.block_id) vs)

abbrev pub add_signed :
    (PartSetHeader → Bytes) → Option Validator → Vote → ℕ → VoteSet → Option Added
add_signed part_key none vote i vs = refused invalid_validator_index vs
add_signed part_key (some val) vote i vs =
    if bytes_equal vote.validator_address val.address
    then add_unless part_key (get_vote part_key i (key part_key vote.block_id) vs) vote i vs
    else refused invalid_validator_address vs

abbrev pub same_step : Vote → VoteSet → Bool
same_step vote vs =
    (vote.height == vs.height) && (equal_ℤ vote.round vs.round && (vote.type_ == vs.type_))

abbrev pub add_at : (PartSetHeader → Bytes) → ℤ → Vote → VoteSet → Option Added
add_at part_key (negsuc n) vote vs = refused invalid_validator_index vs
add_at part_key (pos i) vote vs =
    if length vote.validator_address == 0
    then refused invalid_validator_address vs
    else if same_step vote vs
    then add_signed part_key (get_elem? vs.val_set i) vote i vs
    else refused unexpected_step vs

unfoldable pub add_vote : (PartSetHeader → Bytes) → Option Vote → VoteSet → Option Added
unfolding add_verified_vote get_vote
add_vote part_key none vs = refused vote_nil vs
add_vote part_key (some vote) vs = add_at part_key vote.validator_index vote vs

-- A peer's claim is refused where it claimed another block before; the flag tells.
abbrev pub claimed : (PartSetHeader → Bytes) → Option BlockVotes → BlockId → VoteSet → VoteSet
claimed part_key none block_id vs = record vs {
  votes_by_block =
      insert (key part_key block_id) (new_block_votes true (length vs.val_set)) vs.votes_by_block;
}
claimed part_key (some bv) block_id vs = record vs {
  votes_by_block =
      insert (key part_key block_id) (record bv { peer_maj23 = true }) vs.votes_by_block;
}

abbrev pub claim :
    (PartSetHeader → Bytes) → Option BlockId → Bytes → BlockId → VoteSet → Bool × VoteSet
claim part_key (some existing) peer_id block_id vs = (not (block_id_equals existing block_id), vs)
claim part_key none peer_id block_id vs = (
  false,
  claimed part_key (lookup (key part_key block_id) vs.votes_by_block) block_id
      (record vs { peer_maj23s = insert peer_id block_id vs.peer_maj23s }),
)

unfoldable pub set_peer_maj23 : (PartSetHeader → Bytes) → Bytes → BlockId → VoteSet → Bool × VoteSet
unfolding new_block_votes
set_peer_maj23 part_key peer_id block_id vs =
    claim part_key (lookup peer_id vs.peer_maj23s) peer_id block_id vs

unfoldable pub two_thirds_majority : VoteSet → Option BlockId
two_thirds_majority vs = vs.maj23

abbrev pub is_found : Option BlockId → Bool
is_found none = false
is_found (some b) = true

unfoldable pub has_two_thirds_majority : VoteSet → Bool
has_two_thirds_majority vs = is_found vs.maj23

unfoldable pub is_commit : VoteSet → Bool
is_commit vs = (vs.type_ == vote_type_precommit) && is_found vs.maj23

unfoldable pub has_two_thirds_any : VoteSet → Bool
has_two_thirds_any vs = ltb_ℤ (two_thirds vs.val_set) vs.sum

unfoldable pub has_half_any : VoteSet → Bool
has_half_any vs = ltb_ℤ (third (mul64 (total_voting_power vs.val_set) (pos 1))) vs.sum

unfoldable pub has_all : VoteSet → Bool
has_all vs = equal_ℤ vs.sum (total_voting_power vs.val_set)
