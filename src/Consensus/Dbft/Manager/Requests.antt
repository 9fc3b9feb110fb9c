-- ===== src/Consensus/Dbft/Manager/Requests.antt =====
-- How requests for a change of epochs are counted and answered.
use hnb_blockchain.Prelude.{
  ℕ, ◌≤◌, ◌==◌, ◌++◌, ◌≡◌, ◌∙◌, refl, ap, true, false, List, [], ◌∷◌, arith, if◌then◌else◌,
}
use hnb_blockchain.Prelude.Bytes.{Bytes, bytes_equal_refl}
use hnb_blockchain.Prelude.Result.{Result, ok, err, ◌>>◌}
use hnb_blockchain.Consensus.Dbft.Types.{EpochChange}
use hnb_blockchain.Consensus.Dbft.Changes.{is_exist, has_sender, set_epoch_change, is_known}
use hnb_blockchain.Consensus.Dbft.Manager.{
  DbftManager, Services, pred64, with_change, handle_epoch_change, accept_epoch_change, with_hash,
  follow, follow_with, check_enter_new_epoch, check_new_epoch_sender, get_new_epoch_sender_addr,
  set_candidate, send_new_epoch, build_new_epoch_msg, build_new_epoch, publish, to_internal,
  build_epoch_change_msg, broadcast_msg_to_all_vp,
}

has_sender_last : (ec : EpochChange) (es : List EpochChange) → has_sender ec (es ++ ec ∷ []) ≡ true
unfolding has_sender
has_sender_last ec [] = ground (arith, bytes_equal_refl ec.digest_addr)
has_sender_last ec (e ∷ es) = ground (arith, has_sender_last ec es)

module _ (s : Services) (ec : EpochChange) where
  exists_after : (dm : DbftManager) → is_exist ec (with_change s ec dm).epoch_change ≡ true
  unfolding is_exist set_epoch_change
  exists_after dm = ground (arith, has_sender_last ec (dm.epoch_change.ec_list ec.epoch_no))

  follow_with_quiet :
      (r : Result Bytes) (dm : DbftManager)
      → is_exist ec dm.epoch_change ≡ true
      → ((follow_with s ec r dm).1.broadcasts ≡ dm.broadcasts)
        × ((follow_with s ec r dm).1.epoch_change ≡ dm.epoch_change)
        × ((follow_with s ec r dm).1.total_validators ≡ dm.total_validators)
        × ((follow_with s ec r dm).1.bft_handler ≡ dm.bft_handler)
  unfolding follow_with set_candidate
  follow_with_quiet (err e) dm h = (refl, refl, refl, refl)
  follow_with_quiet (ok msg) dm h = (ground arith, ground arith, ground arith, ground arith)

  follow_quiet :
      (dm : DbftManager)
      → is_exist ec dm.epoch_change ≡ true
      → ((follow s ec dm).1.broadcasts ≡ dm.broadcasts)
        × ((follow s ec dm).1.epoch_change ≡ dm.epoch_change)
        × ((follow s ec dm).1.total_validators ≡ dm.total_validators)
        × ((follow s ec dm).1.bft_handler ≡ dm.bft_handler)
  unfolding follow
  follow_quiet dm h =
      let (a, b, c, d) =
        follow_with_quiet (build_epoch_change_msg s dm.cur_height ec.epoch_no dm) dm h in
      (ground (arith, a), ground (arith, b), ground (arith, c), ground (arith, d))

  sender_same :
      (dm dm' : DbftManager)
      → dm'.total_validators ≡ dm.total_validators
      → dm'.bft_handler ≡ dm.bft_handler
      → check_new_epoch_sender ec.epoch_no dm' ≡ check_new_epoch_sender ec.epoch_no dm
  unfolding check_new_epoch_sender get_new_epoch_sender_addr
  sender_same dm dm' e f = rw (e, f) refl

  enter_quiet :
      (dm : DbftManager)
      → check_new_epoch_sender ec.epoch_no dm ≡ false
      → check_enter_new_epoch s ec dm ≡ (ok tt, dm)
  unfolding check_enter_new_epoch
  enter_quiet dm h = ground arith

  build_new_epoch-epoch_change :
      (dm : DbftManager) → (build_new_epoch s dm).1.epoch_change ≡ dm.epoch_change
  unfolding build_new_epoch
  build_new_epoch-epoch_change dm = ground arith

  publish-epoch_change :
      (msg : Bytes) (dm : DbftManager) → (publish s msg dm).epoch_change ≡ dm.epoch_change
  unfolding publish to_internal broadcast_msg_to_all_vp
  publish-epoch_change msg dm = ground arith

  build_new_epoch_msg-epoch_change :
      (n : ℕ) (dm : DbftManager) → (build_new_epoch_msg s n dm).1.epoch_change ≡ dm.epoch_change
  unfolding build_new_epoch_msg
  build_new_epoch_msg-epoch_change n dm = ground (arith, build_new_epoch-epoch_change dm)

  send_new_epoch-epoch_change :
      (n : ℕ) (dm : DbftManager) → (send_new_epoch s n dm).1.epoch_change ≡ dm.epoch_change
  unfolding send_new_epoch
  send_new_epoch-epoch_change n dm =
      grind (arith, publish-epoch_change, build_new_epoch_msg-epoch_change n dm)

  check_enter-epoch_change :
      (dm : DbftManager) → (check_enter_new_epoch s ec dm).1.epoch_change ≡ dm.epoch_change
  unfolding check_enter_new_epoch
  check_enter-epoch_change dm = ground (arith, send_new_epoch-epoch_change ec.epoch_no dm)

  -- The conditions under which the handler takes a request up: it is not for an epoch that is over, it
  -- names a height that the node has, with the hash of the node's own block there, and no new epoch
  -- of its number is known.
  pub record IsAcceptable (dm : DbftManager) : Type 0 where
    pub current : pred64 dm.candidate_no ≤ ec.epoch_no
    pub reached : ec.height ≤ dm.cur_height
    pub same_chain : s.get_block_hash (pred64 ec.height) ≡ ok ec.hash
    pub undecided : is_known ec.epoch_no dm.new_epoch ≡ false

  handled :
      (sender : ℕ) (dm : DbftManager)
      → IsAcceptable dm
      → handle_epoch_change s ec sender dm ≡ with_hash s ec (s.get_block_hash (pred64 ec.height)) dm
  unfolding handle_epoch_change
  handled sender dm h = ground (arith, h.current, h.reached)

  hashed :
      (dm : DbftManager)
      → IsAcceptable dm
      → with_hash s ec (ok ec.hash) dm
        ≡ (follow s ec >> check_enter_new_epoch s ec) (with_change s ec dm)
  unfolding with_hash accept_epoch_change
  hashed dm h = rw (bytes_equal_refl ec.hash, h.undecided) refl

  accepted_lem :
      (sender : ℕ) (dm : DbftManager)
      → IsAcceptable dm
      → handle_epoch_change s ec sender dm
        ≡ (follow s ec >> check_enter_new_epoch s ec) (with_change s ec dm)
  accepted_lem sender dm h =
      handled sender dm h ∙ ap (λ r. with_hash s ec r dm) h.same_chain ∙ hashed dm h

  then_epoch_change :
      (dm : DbftManager)
      → is_exist ec dm.epoch_change ≡ true
      → ((follow s ec >> check_enter_new_epoch s ec) dm).1.epoch_change ≡ dm.epoch_change
  then_epoch_change dm h =
      ground (arith, follow_quiet dm h, check_enter-epoch_change (follow s ec dm).1)

  -- A request that the handler takes up is appended to those of its epoch and so counts toward the
  -- thresholds, also where the same sender is counted already, and no other epoch's requests change.
  pub handle_epoch_change_counts :
      (sender : ℕ) (dm : DbftManager) (n : ℕ)
      → IsAcceptable dm
      → (handle_epoch_change s ec sender dm).1.epoch_change.ec_list n ≡ (
          if n == ec.epoch_no
          then dm.epoch_change.ec_list n ++ ec ∷ []
          else dm.epoch_change.ec_list n)
  unfolding set_epoch_change
  handle_epoch_change_counts sender dm n h =
      rw (accepted_lem sender dm h)
        (ap (λ m. m.ec_list n) (then_epoch_change (with_change s ec dm) (exists_after dm)))

  -- A node that is not the one to propose the new epoch broadcasts nothing on a request that it takes
  -- up, however many of the candidates ask for the change.
  pub handle_epoch_change_quiet :
      (sender : ℕ) (dm : DbftManager)
      → IsAcceptable dm
      → check_new_epoch_sender ec.epoch_no dm ≡ false
      → (handle_epoch_change s ec sender dm).1.broadcasts ≡ dm.broadcasts
  handle_epoch_change_quiet sender dm h other =
      let (a, b, c, d) = follow_quiet (with_change s ec dm) (exists_after dm) in
      rw (accepted_lem sender dm h) (
        ground (
          arith,
          a,
          enter_quiet (follow s ec (with_change s ec dm)).1 (
              sender_same (with_change s ec dm) _ c d
              ∙ sender_same dm (with_change s ec dm) refl refl
              ∙ other),
        ))
