-- ===== src/Consensus/Dbft/Manager.antt =====
-- consensus/dbft/epochChangeHandler.go: the handler of a request for a change of epochs, and what it
-- calls.
pub mod Requests
pub mod Proposer
use hnb_blockchain.Prelude.{
  ℕ, ◌+◌, ◌-◌, ◌%◌, ◌^◌, ◌==◌, ◌++◌, ltb, not, Bool, true, false, if◌then◌else◌, Option, none, some,
  List, [], ◌∷◌, length, get_elem?,
}
use hnb_blockchain.Prelude.Int.{ℤ, pos}
use hnb_blockchain.Prelude.Bytes.{Bytes, bytes_equal}
use hnb_blockchain.Prelude.Result.{
  Result, ok, err, Error, Action, pure, fail, fail_if, lift, or_fail, modify, ◌>>=◌, ◌>>◌,
}
pub use hnb_blockchain.Consensus.Dbft.State.{
  Message, BftHandler, DbftManager, Services, or_nil, pred64,
}
use hnb_blockchain.Consensus.Dbft.Types.{Validator, EpochChange, NewEpoch, Epoch}
use hnb_blockchain.Consensus.Dbft.Changes.{
  EpochChangeMap, NewEpochMap, is_exist, set_epoch_change, is_known, del_epoch_change,
  del_new_epoch_map, is_majority_to_candidates, is_more_than_one_thrid_to_candidates,
}
use hnb_blockchain.Consensus.Dbft.Epochs.{
  EpochListCache, is_witness, re_set_begin_blk, set_epoch, del_epoch,
}
use hnb_blockchain.Consensus.Dbft.Witnesses.{Voting, begin_witness_selection}

-- `bytes.Compare(a, b) == -1`
unfoldable pub bytes_less : Bytes → Bytes → Bool
bytes_less a [] = false
bytes_less [] (c ∷ cs) = true
bytes_less (b ∷ bs) (c ∷ cs) = if b == c then bytes_less bs cs else ltb b c

-- `sort.Sort(types.ValidatorsByAddress(validators))`
unfoldable pub insert_validator : Validator → List Validator → List Validator
insert_validator v [] = v ∷ []
insert_validator v (w ∷ ws) =
    if bytes_less w.address v.address then w ∷ insert_validator v ws else v ∷ w ∷ ws

unfoldable pub sort_validators : List Validator → List Validator
unfolding insert_validator
sort_validators [] = []
sort_validators (v ∷ vs) = insert_validator v (sort_validators vs)

-- The address at a place of a list that is long enough.
unfoldable pub address_at : Option Validator → Result Bytes
address_at none = err Error.no_validators
address_at (some v) = ok v.address

unfoldable pub sender_of : ℕ → List Validator → Result Bytes
unfolding address_at
sender_of epoch_no [] = err Error.no_validators
sender_of epoch_no (v ∷ vs) =
    address_at (get_elem? (sort_validators (v ∷ vs)) (epoch_no % length (v ∷ vs)))

unfoldable pub get_new_epoch_sender_addr : ℕ → DbftManager → Result Bytes
unfolding sender_of
get_new_epoch_sender_addr epoch_no dm = sender_of epoch_no dm.total_validators

unfoldable pub check_new_epoch_sender : ℕ → DbftManager → Bool
check_new_epoch_sender epoch_no dm = elim (get_new_epoch_sender_addr epoch_no dm) [
  | err e ↦ false
  | ok addr ↦ bytes_equal dm.bft_handler.digest_addr addr
]

-- `message_queue_size`: a message for a full queue is dropped.
unfoldable pub to_internal : Bytes → DbftManager → DbftManager
to_internal msg dm =
    if ltb (length dm.internal_msg_queue) 19999
    then record dm { internal_msg_queue = dm.internal_msg_queue ++ msg ∷ [] }
    else dm

unfoldable pub broadcast_msg_to_all_vp : Bytes → DbftManager → DbftManager
broadcast_msg_to_all_vp msg dm = record dm { broadcasts = dm.broadcasts ++ msg ∷ [] }

unfoldable pub sync_entrance : ℕ → ℕ → DbftManager → DbftManager
sync_entrance height sender dm = record dm {
  sync_requests = dm.sync_requests ++ (height, sender) ∷ [];
}

unfoldable pub set_candidate : ℕ → DbftManager → DbftManager
set_candidate n dm = record dm { candidate_no = n }

module _ (s : Services) where
  unfoldable pub build_epoch_change_msg : ℕ → ℕ → DbftManager → Result Bytes
  build_epoch_change_msg height epoch_no dm = s.sign (
      Message.epoch_change_msg (record {
        epoch_no = epoch_no;
        depend_epoch_no = 0;
        digest_addr = dm.bft_handler.digest_addr;
        height = height;
        hash = or_nil (s.get_block_hash (pred64 height));
        is_timeout = false;
      }))

  -- An epoch with the selected witnesses; its other fields are zero.
  abbrev pub selected_epoch : Option (List Validator × ℕ) → Result Epoch
  selected_epoch none = err Error.not_returned
  selected_epoch (some (w, n)) = ok (record {
    epoch_no = 0;
    depend_epoch_no = n;
    begin_num = 0;
    end_num = 0;
    target_blk_num = pos 0;
    witness_list = w;
    is_to_target = false;
  })

  -- `BuildNewEpoch`; the selection may load an epoch into the list.
  unfoldable pub build_new_epoch : Action DbftManager Epoch
  build_new_epoch dm =
      let (r, elc) =
        begin_witness_selection s.voting s.load_epoch_info s.fuel dm.bft_number dm.candidate_no
          dm.epoch dm.total_validators dm.epoch_list in
      (lift r >>= λ found. lift (selected_epoch found)) (record dm { epoch_list = elc })

  unfoldable pub build_new_epoch_msg : ℕ → Action DbftManager Bytes
  build_new_epoch_msg new_epoch_no = build_new_epoch >>= λ epoch.
      lift (s.encode_witnesses epoch.witness_list) >>= λ encoded dm. (
        s.sign (
            Message.new_epoch_msg (record {
              epoch_no = new_epoch_no;
              depend_epoch_no = epoch.depend_epoch_no;
              digest_addr = dm.bft_handler.digest_addr;
              witnesss = encoded;
              begin = dm.bft_handler.height;
              end = dm.bft_handler.height;
            })),
        dm,
      )

  unfoldable pub publish : Bytes → DbftManager → DbftManager
  unfolding to_internal broadcast_msg_to_all_vp
  publish msg dm = to_internal msg (broadcast_msg_to_all_vp msg dm)

  unfoldable pub send_new_epoch : ℕ → Action DbftManager (Unit {0})
  unfolding publish
  send_new_epoch epoch_no = build_new_epoch_msg epoch_no >>= λ msg. modify (publish msg)

  unfoldable pub check_enter_new_epoch : EpochChange → Action DbftManager (Unit {0})
  unfolding send_new_epoch
  check_enter_new_epoch ec dm =
      if is_majority_to_candidates ec.epoch_no (length dm.total_validators) dm.epoch_change
      then (if check_new_epoch_sender ec.epoch_no dm
          then send_new_epoch ec.epoch_no dm
          else (ok tt, dm))
      else (ok tt, dm)

  -- The node joins a change that more than a third ask for, unless the request is known.
  unfoldable pub follow_with : EpochChange → Result Bytes → Action DbftManager (Unit {0})
  unfolding publish
  follow_with ec (err e) dm = (err e, dm)
  follow_with ec (ok msg) dm =
      let dm' = if ltb dm.candidate_no ec.epoch_no then set_candidate ec.epoch_no dm else dm in
      if is_exist ec dm'.epoch_change then (ok tt, dm') else (ok tt, publish msg dm')

  unfoldable pub follow : EpochChange → Action DbftManager (Unit {0})
  unfolding follow_with
  follow ec dm =
      if is_more_than_one_thrid_to_candidates ec.epoch_no (length dm.total_validators)
        dm.epoch_change
      then follow_with ec (build_epoch_change_msg dm.cur_height ec.epoch_no dm) dm
      else (ok tt, dm)

  abbrev pub with_change : EpochChange → DbftManager → DbftManager
  with_change ec dm = record dm { epoch_change = set_epoch_change ec dm.epoch_change }

  -- `HandleEpochChange` behind the read of the block's hash.
  unfoldable pub accept_epoch_change : EpochChange → Bytes → Action DbftManager (Unit {0})
  unfolding follow check_enter_new_epoch
  accept_epoch_change ec hash dm =
      if not (bytes_equal hash ec.hash)
      then (err Error.hash_differs, dm)
      else if is_known ec.epoch_no dm.new_epoch
      then (err Error.epoch_decided, dm)
      else (follow ec >> check_enter_new_epoch ec) (with_change ec dm)

  unfoldable pub with_hash : EpochChange → Result Bytes → Action DbftManager (Unit {0})
  unfolding accept_epoch_change
  with_hash ec (err e) dm = (err e, dm)
  with_hash ec (ok hash) dm = accept_epoch_change ec hash dm

  -- `HandleEpochChange` with the decoded message.
  unfoldable pub handle_epoch_change : EpochChange → ℕ → Action DbftManager (Unit {0})
  unfolding with_hash
  handle_epoch_change ec sender dm =
      if ltb ec.epoch_no (pred64 dm.candidate_no)
      then (err Error.epoch_old, dm)
      else if ltb dm.cur_height ec.height
      then (ok tt, sync_entrance ec.height sender dm)
      else with_hash ec (s.get_block_hash (pred64 ec.height)) dm
