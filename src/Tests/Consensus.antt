-- ===== src/Tests/Consensus.antt =====
-- The theorems on the change of epochs at a chain of four candidates.
use hnb_blockchain.Prelude.{
  ℕ, ◌+◌, ◌*◌, ◌<◌, ◌≤◌, ◌==◌, ◌≡◌, ◌↔◌, refl, arith, Bool, true, false, none, some, [], ◌∷◌,
  length, if◌then◌else◌,
}
use hnb_blockchain.Prelude.Int.{pos}
use hnb_blockchain.Prelude.Bytes.{Bytes, codes, bytes_equal}
use hnb_blockchain.Prelude.Result.{ok, err, Error}
use hnb_blockchain.Consensus.Dbft.Types.{Validator, EpochChange, NewEpoch, Epoch}
use hnb_blockchain.Consensus.Dbft.Changes.{
  EpochChangeMap, is_majority_to_candidates, is_more_than_one_thrid_to_candidates,
  get_epoch_change_len, thresholds_exact, is_known,
}
use hnb_blockchain.Consensus.Dbft.Epochs.{get_epoch, re_set_begin_blk}
use hnb_blockchain.Consensus.Dbft.Witnesses.{
  fill, witness_shuffle, begin_witness_selection, is_vote_satisfied, get_last_witnesses,
}
use hnb_blockchain.Consensus.Dbft.Witnesses.Filling.{fill_ends}
use hnb_blockchain.Consensus.Dbft.Witnesses.Shuffle.{count, witness_shuffle_reorders}
use hnb_blockchain.Consensus.Dbft.Manager.{
  DbftManager, Services, pred64, handle_epoch_change, check_new_epoch_sender,
  get_new_epoch_sender_addr, sort_validators, bytes_less, build_new_epoch,
}
use hnb_blockchain.Consensus.Dbft.Manager.Requests.{
  IsAcceptable, handle_epoch_change_counts, handle_epoch_change_quiet,
}
use hnb_blockchain.Consensus.Dbft.Entering.{check_new_epoch_match, reset_epoch, handle_new_epoch}
use hnb_blockchain.Consensus.Dbft.Entering.Matching.{AreHashed, check_new_epoch_match_iff}
use hnb_blockchain.Consensus.Dbft.Entering.Guards.{handle_new_epoch_guards}
use hnb_blockchain.Consensus.Dbft.Entering.Resetting.{reset_epoch_enters}
use hnb_blockchain.Consensus.Dbft.Steps.{Step, Steps, request, stay, then_step, receive_new_epoch}
use hnb_blockchain.Consensus.Dbft.Steps.Progress.{Later, epochs_only_advance}

abbrev validator : Bytes → Validator
validator a = record { address = a; pub_key_str = a; voting_power = pos 1; accum = pos 0 }

abbrev node_a : Validator
node_a = validator (codes "a")

abbrev node_b : Validator
node_b = validator (codes "b")

abbrev node_c : Validator
node_c = validator (codes "c")

abbrev asks : Bytes → EpochChange
asks a = record {
  epoch_no = 1;
  depend_epoch_no = 0;
  digest_addr = a;
  height = 5;
  hash = codes "h";
  is_timeout = false;
}

abbrev two_ask : EpochChangeMap
two_ask = record { ec_list = λ n. if n == 1 then asks (codes "a") ∷ asks (codes "c") ∷ [] else [] }

thresholds_exact_example :
    ((is_majority_to_candidates 1 3 two_ask ≡ true) ↔ (2 * 3 < 3 * get_epoch_change_len 1 two_ask))
    × ((is_more_than_one_thrid_to_candidates 1 3 two_ask ≡ true)
        ↔ (3 < 3 * get_epoch_change_len 1 two_ask))
thresholds_exact_example = thresholds_exact 1 3 two_ask

fill_ends_example :
    (fill 2 (1 + 1 * 2) (node_b ∷ node_c ∷ []) (node_a ∷ []) ≡ some (node_a ∷ node_b ∷ node_c ∷ []))
    × (3 ≡ 1 + 1 * 2)
fill_ends_example = fill_ends 1 2 (node_b ∷ node_c ∷ []) (node_a ∷ []) (omega arith) (omega arith)

abbrev is_a : Validator → Bool
is_a v = bytes_equal v.address (codes "a")

witness_shuffle_reorders_example :
    count is_a (witness_shuffle 7 (node_a ∷ node_b ∷ node_c ∷ []))
    ≡ count is_a (node_a ∷ node_b ∷ node_c ∷ [])
witness_shuffle_reorders_example = witness_shuffle_reorders 7 (node_a ∷ node_b ∷ node_c ∷ []) is_a

abbrev epoch_zero : Epoch
epoch_zero = record {
  epoch_no = 0;
  depend_epoch_no = 0;
  begin_num = 5;
  end_num = 5;
  target_blk_num = pos 10;
  witness_list = node_a ∷ node_b ∷ [];
  is_to_target = false;
}

abbrev hash : Validator → Bytes
hash v = v.address

check_new_epoch_match_iff_example : (check_new_epoch_match hash epoch_zero epoch_zero ≡ true) ↔ (
    (epoch_zero.begin_num ≡ 5)
    × (epoch_zero.end_num ≡ 5)
    × (epoch_zero.depend_epoch_no ≡ 0)
    × (length epoch_zero.witness_list ≡ 2)
    × AreHashed hash (node_a ∷ node_b ∷ []) (node_a ∷ node_b ∷ []))
check_new_epoch_match_iff_example = check_new_epoch_match_iff hash epoch_zero epoch_zero

-- Signing appends nothing, every block has one hash, and nobody has voted.
abbrev services : Services
services = record {
  get_block_hash = λ n. ok (codes "h");
  sign = λ m. ok (codes "signed");
  encode_witnesses = λ ws. ok [];
  decode_witnesses = λ s. ok (node_a ∷ node_b ∷ []);
  hash = hash;
  voting = record {
    get_vote_sum = λ n. ok (pos 0);
    get_vote_peer_id_order_token = λ n. ok [];
    peer_id_to_string = λ s. s;
  };
  load_epoch_info = λ n. err Error.db_failed;
  unfreeze_token = λ n. ok tt;
  reset = ok tt;
  start = ok tt;
  load_total_validators = λ n. node_c ∷ node_a ∷ node_b ∷ [];
  target_blk_count = pos 10;
  fuel = 10;
}

abbrev manager : DbftManager
manager = record {
  total_validators = node_c ∷ node_a ∷ node_b ∷ [];
  cur_height = 5;
  blk_timeout_count = 0;
  bft_number = 2;
  candidate_no = 1;
  epoch = epoch_zero;
  epoch_list = record { list = λ n. if n == 0 then some (some epoch_zero) else none };
  epoch_change = two_ask;
  new_epoch = record { ne = λ n. none };
  epoch_change_cache = [];
  voted_cache = [];
  bft_handler = record {
    height = 5;
    digest_addr = codes "a";
    last_height_validators_changed = 0;
    witness_list = [];
    validators_epoch = 0;
    extend = epoch_zero;
  };
  internal_msg_queue = [];
  broadcasts = [];
  sync_requests = [];
}

asks_again-IsAcceptable : IsAcceptable services (asks (codes "a")) manager
unfolding is_known
asks_again-IsAcceptable = record {
  current = omega arith;
  reached = omega arith;
  same_chain = refl;
  undecided = refl;
}

handle_epoch_change_counts_example :
    (handle_epoch_change services (asks (codes "a")) 9 manager).1.epoch_change.ec_list 1
    ≡ asks (codes "a") ∷ asks (codes "c") ∷ asks (codes "a") ∷ []
handle_epoch_change_counts_example =
    handle_epoch_change_counts services (asks (codes "a")) 9 manager 1 asks_again-IsAcceptable

not_the_proposer : check_new_epoch_sender 1 manager ≡ false
unfolding check_new_epoch_sender get_new_epoch_sender_addr sort_validators bytes_less bytes_equal
not_the_proposer = refl

handle_epoch_change_quiet_example :
    (handle_epoch_change services (asks (codes "a")) 9 manager).1.broadcasts ≡ []
handle_epoch_change_quiet_example =
    handle_epoch_change_quiet services (asks (codes "a")) 9 manager asks_again-IsAcceptable
      not_the_proposer

abbrev proposal : NewEpoch
proposal = record {
  epoch_no = 1;
  depend_epoch_no = 0;
  digest_addr = codes "b";
  witnesss = [];
  begin = 5;
  end = 5;
}

proposal_entered : (handle_new_epoch services proposal manager).0 ≡ ok proposal
unfolding handle_new_epoch get_new_epoch_sender_addr sort_validators bytes_less bytes_equal
    is_more_than_one_thrid_to_candidates build_new_epoch begin_witness_selection is_vote_satisfied
    get_last_witnesses get_epoch check_new_epoch_match re_set_begin_blk witness_shuffle reset_epoch
proposal_entered = refl

handle_new_epoch_guards_example :
    (1 ≤ 1)
    × (get_new_epoch_sender_addr 1 manager ≡ ok (codes "b"))
    × (is_more_than_one_thrid_to_candidates 1 3 two_ask ≡ true)
handle_new_epoch_guards_example = handle_new_epoch_guards services proposal manager proposal_entered

abbrev epoch_one : Epoch
epoch_one = record epoch_zero { epoch_no = 1 }

reset_epoch_enters_example :
    let (r, dm') = reset_epoch services epoch_one manager in
    (r ≡ ok tt)
    × (dm'.epoch ≡ epoch_one)
    × (dm'.candidate_no ≡ 2)
    × (dm'.total_validators ≡ node_c ∷ node_a ∷ node_b ∷ [])
    × (dm'.epoch_list.list 1 ≡ some (some epoch_one))
    × (dm'.bft_handler.witness_list ≡ node_a ∷ node_b ∷ [])
    × ((n : ℕ)
        → dm'.epoch_change.ec_list n
          ≡ (if n == pred64 1 then [] else manager.epoch_change.ec_list n))
reset_epoch_enters_example = reset_epoch_enters services epoch_one manager (omega arith) refl refl

two-Steps :
    Steps services manager
      (receive_new_epoch services proposal
        (handle_epoch_change services (asks (codes "b")) 9 manager).1).1
two-Steps =
    then_step _ _ _ (then_step _ _ _ (stay manager) (request (asks (codes "b")) 9 manager))
      (Step.proposal proposal _ (omega arith))

epochs_only_advance_example :
    Later manager
      (receive_new_epoch services proposal
        (handle_epoch_change services (asks (codes "b")) 9 manager).1).1
epochs_only_advance_example = epochs_only_advance services manager _ two-Steps (omega arith)
