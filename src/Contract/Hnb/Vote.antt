-- ===== src/Contract/Hnb/Vote.antt =====
-- contract/hnb/vote.go: votes with frozen tokens. The votes of an epoch stand under the key
-- "epoch#N", as a map from candidates to tokens, and one record for each vote under
-- "record_epoch#N".
pub mod Freeze
pub mod Refund
pub mod Tally
use hnb_blockchain.Prelude.{
  ℕ, ◌==◌, ◌++◌, ◌||◌, Bool, false, if◌then◌else◌, Option, none, some, List, [], ◌∷◌, map,
}
use hnb_blockchain.Prelude.Int.{ℤ, pos, negsuc, ltb_ℤ, add64, sub64}
use hnb_blockchain.Prelude.Bytes.{Bytes, codes}
use hnb_blockchain.Prelude.Assoc.{Dict, lookup, insert}
use hnb_blockchain.Prelude.Result.{
  Result, ok, err, Error, Action, reads, pure, lift, fail_if, or_fail, modify, ◌>>=◌, ◌>>◌,
}
use hnb_blockchain.Strconv.{format_uint}
use hnb_blockchain.Hex.{byte_to_hex, hex_to_byte}
use hnb_blockchain.State.{Value, text, raw64, tx_index, vote_map, vote_records, VoteRecord, Ledger}
use hnb_blockchain.App.Api.{ContractApi, get_state, put_state, del_state}
use hnb_blockchain.Contract.Requests.{VoteInfo}
use hnb_blockchain.Contract.Amount.{amount_value, parse_value_checked}
use hnb_blockchain.Contract.Hnb.{get_balance, set_balance}

-- `GetEpochKey`
unfoldable pub get_epoch_key : ℕ → Bytes
get_epoch_key epoch = codes "epoch#" ++ format_uint epoch

-- `GetEpochRecordKey`
unfoldable pub get_epoch_record_key : ℕ → Bytes
get_epoch_record_key epoch = codes "record_epoch#" ++ format_uint epoch

abbrev pub is_zero : ℤ → Bool
is_zero (pos n) = n == 0
is_zero (negsuc n) = false

-- `json.Unmarshal` into a map that is empty, where there is a document.
unfoldable pub read_votes : Option Value → Result (Dict ℤ)
read_votes none = ok []
read_votes (some (vote_map m)) = ok m
read_votes (some (vote_records vs)) = err Error.bad_document
read_votes (some (text s)) = err Error.bad_document
read_votes (some (raw64 n)) = err Error.bad_document
read_votes (some (tx_index n i)) = err Error.bad_document

unfoldable pub read_records : Option Value → Result (List VoteRecord)
read_records none = ok []
read_records (some (vote_records vs)) = ok vs
read_records (some (vote_map m)) = err Error.bad_document
read_records (some (text s)) = err Error.bad_document
read_records (some (raw64 n)) = err Error.bad_document
read_records (some (tx_index n i)) = err Error.bad_document

abbrev pub or_zero : Option ℤ → ℤ
or_zero none = pos 0
or_zero (some n) = n

-- The votes with `power` more for the candidate.
unfoldable pub add_vote : Bytes → ℤ → Dict ℤ → Dict ℤ
add_vote candidate power votes =
    insert (byte_to_hex candidate) (add64 (or_zero (lookup (byte_to_hex candidate) votes)) power)
      votes

-- The part of `SaveTokenTotal` behind its guards. A failed read of the votes is reported as success.
unfoldable pub add_to_total :
    Bytes → Bytes → ℤ → ℕ → ℤ → Result (Option Value) → Action ContractApi (Unit {0})
add_to_total from candidate power epoch input_amount (err e) = pure tt
add_to_total from candidate power epoch input_amount (ok vote_record) = do
  votes ← lift (read_votes vote_record)
  modify (put_state (get_epoch_key epoch) (vote_map (add_vote candidate power votes)))
  modify (put_state from (amount_value (sub64 input_amount power)))

-- The part of `SaveTokenFromInfo` behind the read of the records.
unfoldable pub append_record :
    ℕ → VoteRecord → Result (Option Value) → Action ContractApi (Unit {0})
append_record epoch vr (err e) = pure tt
append_record epoch vr (ok vote_record) = do
  vrs ← lift (read_records vote_record)
  modify (put_state (get_epoch_record_key epoch) (vote_records (vrs ++ vr ∷ [])))

abbrev pub or_empty : Option Bytes → Bytes
or_empty none = []
or_empty (some b) = b

module _ (ledger : Ledger) where
  unfoldable pub save_token_total : VoteInfo → Action ContractApi (Unit {0})
  unfolding add_to_total
  save_token_total vi = do
    candidate ← lift (or_fail vi.candidate Error.vote_params_invalid)
    from ← lift (or_fail vi.from_addr Error.vote_params_invalid)
    fail_if (is_zero vi.voting_power || vi.vote_epoch == 0) Error.vote_params_invalid
    input ← reads (get_state ledger from)
    value ← lift (or_fail input Error.input_not_exist)
    input_amount ← lift (parse_value_checked value)
    fail_if (ltb_ℤ input_amount vi.voting_power) Error.vote_power_lower
    λ ca.
        add_to_total from candidate vi.voting_power vi.vote_epoch input_amount
          (get_state ledger (get_epoch_key vi.vote_epoch) ca) ca

  unfoldable pub save_token_from_info : VoteInfo → Action ContractApi (Unit {0})
  unfolding append_record
  save_token_from_info vi ca =
      append_record vi.vote_epoch
        (record { from_addr = or_empty vi.from_addr; voting_power = vi.voting_power })
        (get_state ledger (get_epoch_record_key vi.vote_epoch) ca) ca

  unfoldable pub vote_pro : VoteInfo → Action ContractApi (Unit {0})
  vote_pro vi = save_token_total vi >> save_token_from_info vi

  -- The loop of `UnFreezePro`: an error stops it, and what it wrote stays.
  unfoldable pub refund_all : List VoteRecord → Action ContractApi (Unit {0})
  refund_all [] = pure tt
  refund_all (v ∷ vs) =
      let rest = refund_all vs in
      do
        amount ← reads (get_balance ledger v.from_addr)
        modify (set_balance v.from_addr (add64 amount v.voting_power))
        rest

  unfoldable pub unfreeze_records : ℕ → Result (Option Value) → Action ContractApi (Unit {0})
  unfolding refund_all
  unfreeze_records epoch (err e) = pure tt
  unfreeze_records epoch (ok vote_record) = do
    vrs ← lift (read_records vote_record)
    refund_all vrs
    modify (del_state (get_epoch_record_key epoch))
    modify (del_state (get_epoch_key epoch))

  unfoldable pub un_freeze_pro : ℕ → Action ContractApi (Unit {0})
  unfolding unfreeze_records
  un_freeze_pro epoch ca =
      unfreeze_records epoch (get_state ledger (get_epoch_record_key epoch) ca) ca

-- The sum over the map, in `int64`.
unfoldable pub sum_votes : ℤ → Dict ℤ → ℤ
sum_votes sum [] = sum
sum_votes sum ((k, v) ∷ m) = sum_votes (add64 sum v) m

unfoldable pub vote_sum_of : Result (Option Value) → Result ℤ
unfolding read_votes sum_votes
vote_sum_of (err e) = ok (pos 0)
vote_sum_of (ok vote_record) = elim (read_votes vote_record) [
  | ok m ↦ ok (sum_votes (pos 0) m)
  | err e ↦ err e
]

pub record PeerInfo : Type 0 where
  pub voting_power : ℤ
  pub peer_id : Bytes

-- `sort.Sort` by falling power. Candidates of one power may come in any order; here the earlier one
-- in the map's iteration comes first.
unfoldable pub insert_peer : PeerInfo → List PeerInfo → List PeerInfo
insert_peer p [] = p ∷ []
insert_peer p (q ∷ ps) =
    if ltb_ℤ p.voting_power q.voting_power then q ∷ insert_peer p ps else p ∷ q ∷ ps

unfoldable pub sort_peers : List PeerInfo → List PeerInfo
unfolding insert_peer
sort_peers [] = []
sort_peers (p ∷ ps) = insert_peer p (sort_peers ps)

unfoldable pub peers_of : Dict ℤ → List PeerInfo
peers_of [] = []
peers_of ((k, v) ∷ m) = record { voting_power = v; peer_id = hex_to_byte k } ∷ peers_of m

unfoldable pub token_order_of : Result (Option Value) → Result (Option (List Bytes))
unfolding read_votes peers_of sort_peers
token_order_of (err e) = ok none
token_order_of (ok vote_record) = elim (read_votes vote_record) [
  | ok m ↦ ok (some (map (λ (p : PeerInfo). p.peer_id) (sort_peers (peers_of m))))
  | err e ↦ err e
]

module _ (ledger : Ledger) where
  unfoldable pub get_vote_sum : ℕ → ContractApi → Result ℤ
  unfolding vote_sum_of
  get_vote_sum epoch ca = vote_sum_of (get_state ledger (get_epoch_key epoch) ca)

  unfoldable pub get_vote_token_order : ℕ → ContractApi → Result (Option (List Bytes))
  unfolding token_order_of
  get_vote_token_order epoch ca = token_order_of (get_state ledger (get_epoch_key epoch) ca)
