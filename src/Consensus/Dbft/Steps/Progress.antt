-- ===== src/Consensus/Dbft/Steps/Progress.antt =====
-- The manager only moves on to later epochs.
use hnb_blockchain.Prelude.{
  ℕ, ◌+◌, ◌%◌, ◌^◌, ◌<◌, ◌≤◌, ◌≡◌, refl, ap, Bool, true, false, not, List, [], arith, if◌then◌else◌,
}
use hnb_blockchain.Prelude.Bytes.{Bytes, bytes_equal}
use hnb_blockchain.Prelude.Result.{Result, ok, err, ◌>>◌}
use hnb_blockchain.Consensus.Dbft.Changes.{is_known}
use hnb_blockchain.Consensus.Dbft.Types.{Validator, EpochChange, NewEpoch, Epoch}
use hnb_blockchain.Consensus.Dbft.Epochs.{re_set_begin_blk}
use hnb_blockchain.Consensus.Dbft.Manager.{
  DbftManager, Services, build_new_epoch, handle_epoch_change, with_hash, accept_epoch_change,
  follow, follow_with, check_enter_new_epoch, set_candidate, send_new_epoch, build_new_epoch_msg,
  publish, to_internal, broadcast_msg_to_all_vp, with_change, sync_entrance,
}
use hnb_blockchain.Consensus.Dbft.Entering.{
  reset_epoch, handle_new_epoch, close_previous, net_epoch,
}
use hnb_blockchain.Consensus.Dbft.Entering.Resetting.{entered, epoch_entered}
use hnb_blockchain.Consensus.Dbft.Steps.{
  Step, Steps, request, proposal, full, stay, then_step, receive_new_epoch, record_entered,
  full_blk_change, enter_selected,
}

-- The candidate is after the manager's epoch.
abbrev pub IsAhead : DbftManager → Type 0
IsAhead dm = dm.epoch.epoch_no < dm.candidate_no

-- Neither the epoch's number nor the candidate's falls.
abbrev pub Later : DbftManager → DbftManager → Type 0
Later a b = (a.epoch.epoch_no ≤ b.epoch.epoch_no) × (a.candidate_no ≤ b.candidate_no) × IsAhead b

candidate_entered :
    (s : Services) (e : Epoch) (dm : DbftManager)
    → (entered s e dm).candidate_no ≡ (e.epoch_no + 1) % 2 ^ 64
unfolding close_previous
candidate_entered s e dm = refl

entered-Later :
    (s : Services) (e : Epoch) (dm : DbftManager)
    → dm.candidate_no ≤ e.epoch_no
    → e.epoch_no + 1 < 2 ^ 64
    → IsAhead dm
    → Later dm (entered s e dm)
entered-Later s e dm from_candidate fits ahead =
    let same = ap (λ (x : Epoch). x.epoch_no) (epoch_entered s e dm) in
    let next = candidate_entered s e dm in
    (omega (arith, same), omega (arith, next), omega (arith, same, next))

reset_epoch-Later :
    (s : Services) (e : Epoch) (dm : DbftManager)
    → dm.candidate_no ≤ e.epoch_no
    → e.epoch_no + 1 < 2 ^ 64
    → IsAhead dm
    → Later dm (reset_epoch s e dm).1
unfolding reset_epoch
reset_epoch-Later s e dm from_candidate fits ahead =
    ground (arith, entered-Later s e dm from_candidate fits ahead)

build_keeps :
    (s : Services) (dm : DbftManager)
    → ((build_new_epoch s dm).1.epoch ≡ dm.epoch)
      × ((build_new_epoch s dm).1.candidate_no ≡ dm.candidate_no)
unfolding build_new_epoch
build_keeps s dm = (ground arith, ground arith)

abbrev known : Result (List Validator) → List Validator
known (ok ws) = ws
known (err e) = []

handle_new_epoch-Later :
    (s : Services) (ne : NewEpoch) (dm : DbftManager)
    → ne.epoch_no + 1 < 2 ^ 64
    → IsAhead dm
    → Later dm (handle_new_epoch s ne dm).1
unfolding handle_new_epoch net_epoch
handle_new_epoch-Later s ne dm fits ahead = ground (
  arith,
  build_keeps s dm,
  reset_epoch-Later s (net_epoch s ne (known (s.decode_witnesses ne.witnesss)))
      (build_new_epoch s dm).1,
  fits,
  ahead,
)

record_entered-Later :
    (dm : DbftManager) (p : Result NewEpoch × DbftManager)
    → Later dm p.1
    → Later dm (record_entered p).1
unfolding record_entered
record_entered-Later dm (err e, d) h = h
record_entered-Later dm (ok ne, d) h = h

re_set_number : (n : ℕ) (e : Epoch) → (re_set_begin_blk n e).epoch_no ≡ e.epoch_no
unfolding re_set_begin_blk
re_set_number n e = refl

enter_selected-Later :
    (s : Services) (dm : DbftManager) (p : Result Epoch × DbftManager)
    → p.1.epoch ≡ dm.epoch
    → p.1.candidate_no ≡ dm.candidate_no
    → dm.candidate_no + 1 < 2 ^ 64
    → IsAhead dm
    → Later dm (enter_selected s p).1
unfolding enter_selected
enter_selected-Later s dm (err e, d) same number fits ahead = ground (arith, same, number)
enter_selected-Later s dm (ok e, d) same number fits ahead = ground (
  arith,
  same,
  number,
  re_set_number d.bft_handler.height (record e { epoch_no = d.candidate_no }),
  reset_epoch-Later s
      (re_set_begin_blk d.bft_handler.height (record e { epoch_no = d.candidate_no })) d,
)

-- The epoch stays, and the candidate's number does not fall.
abbrev Raised : DbftManager → DbftManager → Type 0
Raised a b = (b.epoch ≡ a.epoch) × (a.candidate_no ≤ b.candidate_no)

publish_keeps :
    (s : Services) (msg : Bytes) (dm : DbftManager)
    → ((publish s msg dm).epoch ≡ dm.epoch) × ((publish s msg dm).candidate_no ≡ dm.candidate_no)
unfolding publish to_internal broadcast_msg_to_all_vp
publish_keeps s msg dm = (ground arith, ground arith)

build_msg_keeps :
    (s : Services) (n : ℕ) (dm : DbftManager)
    → ((build_new_epoch_msg s n dm).1.epoch ≡ dm.epoch)
      × ((build_new_epoch_msg s n dm).1.candidate_no ≡ dm.candidate_no)
unfolding build_new_epoch_msg
build_msg_keeps s n dm = (ground (arith, build_keeps s dm), ground (arith, build_keeps s dm))

send_keeps :
    (s : Services) (n : ℕ) (dm : DbftManager)
    → ((send_new_epoch s n dm).1.epoch ≡ dm.epoch)
      × ((send_new_epoch s n dm).1.candidate_no ≡ dm.candidate_no)
unfolding send_new_epoch
send_keeps s n dm = (
  grind (arith, publish_keeps, build_msg_keeps s n dm),
  grind (arith, publish_keeps, build_msg_keeps s n dm),
)

enter_keeps :
    (s : Services) (ec : EpochChange) (dm : DbftManager)
    → ((check_enter_new_epoch s ec dm).1.epoch ≡ dm.epoch)
      × ((check_enter_new_epoch s ec dm).1.candidate_no ≡ dm.candidate_no)
unfolding check_enter_new_epoch
enter_keeps s ec dm =
    (ground (arith, send_keeps s ec.epoch_no dm), ground (arith, send_keeps s ec.epoch_no dm))

follow_with-Raised :
    (s : Services) (ec : EpochChange) (r : Result Bytes) (dm : DbftManager)
    → Raised dm (follow_with s ec r dm).1
unfolding follow_with set_candidate
follow_with-Raised s ec (err e) dm = (refl, omega arith)
follow_with-Raised s ec (ok msg) dm = grind (arith, publish_keeps)

follow-Raised : (s : Services) (ec : EpochChange) (dm : DbftManager) → Raised dm (follow s ec dm).1
unfolding follow
follow-Raised s ec dm = grind (arith, follow_with-Raised)

then-Raised :
    (s : Services) (ec : EpochChange) (dm : DbftManager)
    → Raised dm ((follow s ec >> check_enter_new_epoch s ec) dm).1
then-Raised s ec dm = ground (arith, follow-Raised s ec dm, enter_keeps s ec (follow s ec dm).1)

if-Raised :
    (dm : DbftManager) (b : Bool) (p q : Result (Unit {0}) × DbftManager)
    → Raised dm p.1
    → Raised dm q.1
    → Raised dm (if b then p else q).1
if-Raised dm true p q h k = h
if-Raised dm false p q h k = k

with_hash-Raised :
    (s : Services) (ec : EpochChange) (r : Result Bytes) (dm : DbftManager)
    → Raised dm (with_hash s ec r dm).1
unfolding with_hash accept_epoch_change
with_hash-Raised s ec (err e) dm = (refl, omega arith)
with_hash-Raised s ec (ok hash) dm =
    if-Raised dm (not (bytes_equal hash ec.hash)) _ _ (refl, omega arith)
      (if-Raised dm (is_known ec.epoch_no dm.new_epoch) _ _ (refl, omega arith)
        (then-Raised s ec (with_change s ec dm)))

request-Raised :
    (s : Services) (ec : EpochChange) (sender : ℕ) (dm : DbftManager)
    → Raised dm (handle_epoch_change s ec sender dm).1
unfolding handle_epoch_change sync_entrance
request-Raised s ec sender dm = grind (arith, with_hash-Raised)

step-Later : (s : Services) (a b : DbftManager) → Step s a b → IsAhead a → Later a b
unfolding receive_new_epoch full_blk_change
step-Later s a b (request ec sender dm) ahead =
    let (same, up) = request-Raised s ec sender dm in
    let number = ap (λ (x : Epoch). x.epoch_no) same in
    (omega (arith, number), up, omega (arith, number, up, ahead))
step-Later s a b (proposal ne dm fits) ahead =
    unfold record_entered in
    record_entered-Later dm (handle_new_epoch s ne dm) (handle_new_epoch-Later s ne dm fits ahead)
step-Later s a b (full dm fits) ahead =
    let (same, number) = build_keeps s dm in
    unfold enter_selected in enter_selected-Later s dm (build_new_epoch s dm) same number fits ahead

-- Over any sequence of requests, proposals and full epochs, with the numbers of epochs that are
-- entered below the last one of 64 bits, a node whose candidate is after its epoch never goes back to
-- an earlier epoch or an earlier candidate, and its candidate stays after its epoch.
pub epochs_only_advance : (s : Services) (a b : DbftManager) → Steps s a b → IsAhead a → Later a b
epochs_only_advance s a b (stay dm) ahead = (omega arith, omega arith, ahead)
epochs_only_advance s a b (then_step _ m _ before last) ahead =
    let (e, c, mid) = epochs_only_advance s a m before ahead in
    let (e', c', end) = step-Later s m b last mid in
    (omega (arith, e, e'), omega (arith, c, c'), end)
