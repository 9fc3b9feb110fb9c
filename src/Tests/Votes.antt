-- ===== src/Tests/Votes.antt =====
-- The theorems on votes at one vote of Alice for Bob.
use hnb_blockchain.Prelude.{◌≡◌, ◌≢◌, refl, arith, true, false, Option, none, some, List, [], ◌∷◌}
use hnb_blockchain.Prelude.Int.{ℤ, pos, sub64, int_laws}
use hnb_blockchain.Prelude.Bytes.{Bytes, codes, bytes_equal}
use hnb_blockchain.Prelude.Assoc.{lookup}
use hnb_blockchain.Prelude.Result.{ok, err, Error}
use hnb_blockchain.Strconv.{digits, format_uint, parse_int_checked}
use hnb_blockchain.State.{Value, text, vote_map, vote_records, VoteRecord, Ledger}
use hnb_blockchain.App.StateCache.{get}
use hnb_blockchain.App.Api.{get_state}
use hnb_blockchain.Contract.Requests.{VoteInfo}
use hnb_blockchain.Contract.Amount.{parse_value_checked, balance_of}
use hnb_blockchain.Contract.Hnb.{get_balance}
use hnb_blockchain.Contract.Hnb.Vote.{
  add_vote, read_votes, read_records, get_epoch_key, get_epoch_record_key, vote_pro, un_freeze_pro,
}
use hnb_blockchain.Contract.Hnb.Vote.Freeze.{IsVotable, vote_pro_freezes, vote_pro_partial}
use hnb_blockchain.Contract.Hnb.Vote.Refund.{un_freeze_pro_refunds, refunded}
use hnb_blockchain.Tests.Contracts.{alice, bob, genesis, alice_calls}

abbrev vote_of_alice : VoteInfo
vote_of_alice = record {
  from_addr = some alice;
  candidate = some bob;
  voting_power = pos 20;
  vote_epoch = 3;
}

-- The same accounts, with `o` under the key of the epoch's records.
abbrev with_records : Option Value → Ledger
with_records o c k = elim (bytes_equal k (codes "record_epoch#3")) [
  | true ↦ ok o
  | false ↦ genesis c k
]

vote_of_alice-IsVotable :
    (o : Option Value) → IsVotable (with_records o) alice_calls vote_of_alice alice bob (pos 50) []
unfolding get_state get lookup parse_value_checked parse_int_checked bytes_equal get_epoch_key
    get_epoch_record_key read_votes format_uint digits
vote_of_alice-IsVotable o = record {
  sender = refl;
  choice = refl;
  power_ne = λ e. cc;
  epoch_ne = λ e. omega arith;
  funds = text (codes "50");
  funded = refl;
  counted = refl;
  cover = omega int_laws;
  votes = none;
  votes_there = refl;
  votes_read = refl;
  from_ne_votes = λ e. cc;
  from_ne_records = λ e. cc;
}

records_there :
    (o : Option Value) → get_state (with_records o) (get_epoch_record_key 3) alice_calls ≡ ok o
unfolding get_state get lookup bytes_equal get_epoch_record_key format_uint digits
records_there o = refl

no_records : read_records none ≡ ok []
unfolding read_records
no_records = refl

bad_records : read_records (some (text (codes "1"))) ≡ err Error.bad_document
unfolding read_records
bad_records = refl

vote_pro_freezes_example :
    let (r, ca') = vote_pro (with_records none) vote_of_alice alice_calls in
    (r ≡ ok tt)
    × (get_balance (with_records none) alice ca' ≡ ok (sub64 (pos 50) (pos 20)))
    × (get_state (with_records none) (get_epoch_key 3) ca'
        ≡ ok (some (vote_map (add_vote bob (pos 20) []))))
    × (get_state (with_records none) (get_epoch_record_key 3) ca'
        ≡ ok (some (vote_records (record { from_addr = alice; voting_power = pos 20 } ∷ []))))
vote_pro_freezes_example =
    vote_pro_freezes (with_records none) alice_calls vote_of_alice alice bob (pos 50) []
      (vote_of_alice-IsVotable none) none (records_there none) [] no_records

abbrev polluted : Option Value
polluted = some (text (codes "1"))

vote_pro_partial_example :
    let (r, ca') = vote_pro (with_records polluted) vote_of_alice alice_calls in
    (r ≡ err Error.bad_document)
    × (get_balance (with_records polluted) alice ca' ≡ ok (sub64 (pos 50) (pos 20)))
    × (get_state (with_records polluted) (get_epoch_record_key 3) ca' ≡ ok polluted)
vote_pro_partial_example =
    vote_pro_partial (with_records polluted) alice_calls vote_of_alice alice bob (pos 50) []
      (vote_of_alice-IsVotable polluted) polluted (records_there polluted) Error.bad_document
      bad_records

abbrev frozen : List VoteRecord
frozen =
    record { from_addr = alice; voting_power = pos 20 }
    ∷ record { from_addr = bob; voting_power = pos 3 }
    ∷ record { from_addr = alice; voting_power = pos 1 }
    ∷ []

frozen_read : read_records (some (vote_records frozen)) ≡ ok frozen
unfolding read_records
frozen_read = refl

abbrev with_frozen : Ledger
with_frozen = with_records (some (vote_records frozen))

alice_there : get_balance with_frozen alice alice_calls ≡ ok (pos 50)
unfolding get_balance balance_of get_state get lookup parse_value_checked parse_int_checked
    bytes_equal
alice_there = refl

bob_there : get_balance with_frozen bob alice_calls ≡ ok (pos 7)
unfolding get_balance balance_of get_state get lookup parse_value_checked parse_int_checked
    bytes_equal
bob_there = refl

un_freeze_pro_refunds_example :
    let (r, ca') = un_freeze_pro with_frozen 3 alice_calls in
    (r ≡ ok tt)
    × (get_state with_frozen (get_epoch_key 3) ca' ≡ ok none)
    × (get_state with_frozen (get_epoch_record_key 3) ca' ≡ ok none)
    × ((k : Bytes) (b : ℤ)
        → k ≢ get_epoch_key 3
        → k ≢ get_epoch_record_key 3
        → get_balance with_frozen k alice_calls ≡ ok b
        → get_balance with_frozen k ca' ≡ ok (refunded k frozen b))
un_freeze_pro_refunds_example =
    un_freeze_pro_refunds with_frozen 3 alice_calls (some (vote_records frozen)) frozen
      (records_there (some (vote_records frozen))) frozen_read
      ((pos 50, alice_there), ((pos 7, bob_there), ((pos 50, alice_there), tt)))
