-- ===== src/Contract/Hnb/Vote/Freeze.antt =====
-- A vote freezes its tokens, adds them to its candidate and leaves a record.
use hnb_blockchain.Prelude.{
  ℕ, ◌++◌, ◌≡◌, ◌≢◌, ◌∙◌, ap, refl, sym, false, Option, some, List, [], ◌∷◌, arith,
}
use hnb_blockchain.Prelude.Int.{ℤ, pos, negsuc, ◌≤ℤ◌, sub64, sub64-Int64}
use hnb_blockchain.Prelude.Bytes.{Bytes, bytes_equal, bytes_differ, bytes_equal_sym_false}
use hnb_blockchain.Prelude.Assoc.{Dict}
use hnb_blockchain.Prelude.Result.{ok, err, Error}
use hnb_blockchain.State.{Value, vote_map, vote_records, VoteRecord, Ledger}
use hnb_blockchain.App.Api.{ContractApi, get_state, put_state}
use hnb_blockchain.App.Api.Laws.{get_state-put_state_ne, get_state-put_state_self}
use hnb_blockchain.Contract.Requests.{VoteInfo}
use hnb_blockchain.Contract.Amount.{
  amount_value, parse_value_checked, balance_of, balance_of-amount_value,
}
use hnb_blockchain.Contract.Hnb.{get_balance}
use hnb_blockchain.Contract.Hnb.Vote.{
  get_epoch_key, get_epoch_record_key, is_zero, read_votes, read_records, add_vote,
  save_token_total, save_token_from_info, vote_pro,
}

pub keys_apart : (e : ℕ) → bytes_equal (get_epoch_key e) (get_epoch_record_key e) ≡ false
unfolding bytes_equal get_epoch_key get_epoch_record_key
keys_apart e = refl

is_zero_ne : (p : ℤ) → p ≢ pos 0 → is_zero p ≡ false
is_zero_ne (pos n) h = ground arith
is_zero_ne (negsuc n) h = refl

-- A vote that the guards of `SaveTokenTotal` let through, with the voter's balance `n` and the votes
-- `m` of the epoch. The voter's address is none of the epoch's two keys.
pub record IsVotable (ledger : Ledger) (ca : ContractApi) (vi : VoteInfo) (from candidate : Bytes)
    (n : ℤ) (m : Dict ℤ) : Type 0 where
  pub sender : vi.from_addr ≡ some from
  pub choice : vi.candidate ≡ some candidate
  pub power_ne : vi.voting_power ≢ pos 0
  pub epoch_ne : vi.vote_epoch ≢ 0
  pub funds : Value
  pub funded : get_state ledger from ca ≡ ok (some funds)
  pub counted : parse_value_checked funds ≡ ok n
  pub cover : vi.voting_power ≤ℤ n
  pub votes : Option Value
  pub votes_there : get_state ledger (get_epoch_key vi.vote_epoch) ca ≡ ok votes
  pub votes_read : read_votes votes ≡ ok m
  pub from_ne_votes : from ≢ get_epoch_key vi.vote_epoch
  pub from_ne_records : from ≢ get_epoch_record_key vi.vote_epoch

module _ (ledger : Ledger) (ca : ContractApi) (vi : VoteInfo) (from candidate : Bytes) (n : ℤ)
    (m : Dict ℤ) (h : IsVotable ledger ca vi from candidate n m) where
  abbrev tallied : ContractApi
  tallied =
      put_state (get_epoch_key vi.vote_epoch) (vote_map (add_vote candidate vi.voting_power m)) ca

  abbrev charged : ContractApi
  charged = put_state from (amount_value (sub64 n vi.voting_power)) tallied

  abbrev voted : List VoteRecord → ContractApi
  voted vs =
      put_state (get_epoch_record_key vi.vote_epoch)
        (vote_records (vs ++ record { from_addr = from; voting_power = vi.voting_power } ∷ []))
        charged

  save_token_total-charged : save_token_total ledger vi ca ≡ (ok tt, charged)
  unfolding save_token_total
  save_token_total-charged = ground (
    arith,
    h.sender,
    h.choice,
    is_zero_ne vi.voting_power h.power_ne,
    h.epoch_ne,
    h.funded,
    h.counted,
    h.cover,
    h.votes_there,
    h.votes_read,
  )

  records_kept :
      get_state ledger (get_epoch_record_key vi.vote_epoch) charged
      ≡ get_state ledger (get_epoch_record_key vi.vote_epoch) ca
  records_kept =
      get_state-put_state_ne ledger from (get_epoch_record_key vi.vote_epoch)
        (amount_value (sub64 n vi.voting_power)) tallied (bytes_differ _ _ h.from_ne_records)
      ∙ get_state-put_state_ne ledger (get_epoch_key vi.vote_epoch)
          (get_epoch_record_key vi.vote_epoch) (vote_map (add_vote candidate vi.voting_power m)) ca
          (keys_apart vi.vote_epoch)

  balance_charged : get_balance ledger from charged ≡ ok (sub64 n vi.voting_power)
  unfolding get_balance
  balance_charged =
      ap balance_of
        (get_state-put_state_self ledger from (amount_value (sub64 n vi.voting_power)) tallied)
      ∙ balance_of-amount_value (sub64 n vi.voting_power) (sub64-Int64 n vi.voting_power)

  module _ (o : Option Value)
      (there : get_state ledger (get_epoch_record_key vi.vote_epoch) ca ≡ ok o) where
    vote_pro-voted :
        (vs : List VoteRecord) → read_records o ≡ ok vs → vote_pro ledger vi ca ≡ (ok tt, voted vs)
    unfolding vote_pro save_token_from_info
    vote_pro-voted vs e = ground (arith, h.sender, save_token_total-charged, records_kept, there, e)

    balance_voted :
        (vs : List VoteRecord) → get_balance ledger from (voted vs) ≡ ok (sub64 n vi.voting_power)
    unfolding get_balance
    balance_voted vs =
        ap balance_of (
          get_state-put_state_ne ledger (get_epoch_record_key vi.vote_epoch) from _ charged
            (bytes_differ _ _ (λ e. h.from_ne_records (sym e))))
        ∙ unfold get_balance in balance_charged

    votes_tallied :
        (vs : List VoteRecord)
        → get_state ledger (get_epoch_key vi.vote_epoch) (voted vs)
          ≡ ok (some (vote_map (add_vote candidate vi.voting_power m)))
    votes_tallied vs =
        get_state-put_state_ne ledger (get_epoch_record_key vi.vote_epoch)
          (get_epoch_key vi.vote_epoch) _ charged
          (bytes_equal_sym_false _ _ (keys_apart vi.vote_epoch))
        ∙ get_state-put_state_ne ledger from (get_epoch_key vi.vote_epoch)
            (amount_value (sub64 n vi.voting_power)) tallied (bytes_differ _ _ h.from_ne_votes)
        ∙ get_state-put_state_self ledger (get_epoch_key vi.vote_epoch)
            (vote_map (add_vote candidate vi.voting_power m)) ca

    -- A vote that the guards let through, in an epoch whose records can be read, succeeds: it takes
    -- its tokens from the voter's balance, adds them to the candidate's votes of the epoch, and
    -- appends a record of them.
    pub vote_pro_freezes :
        (vs : List VoteRecord)
        → read_records o ≡ ok vs
        → let (r, ca') = vote_pro ledger vi ca in
          (r ≡ ok tt)
          × (get_balance ledger from ca' ≡ ok (sub64 n vi.voting_power))
          × (get_state ledger (get_epoch_key vi.vote_epoch) ca'
              ≡ ok (some (vote_map (add_vote candidate vi.voting_power m))))
          × (get_state ledger (get_epoch_record_key vi.vote_epoch) ca'
              ≡ ok (
                  some (
                    vote_records
                      (vs ++ record { from_addr = from; voting_power = vi.voting_power } ∷ []))))
    vote_pro_freezes vs e = rw (vote_pro-voted vs e) (
      refl,
      balance_voted vs,
      votes_tallied vs,
      get_state-put_state_self ledger (get_epoch_record_key vi.vote_epoch) _ charged,
    )

    vote_pro-charged :
        (e : Error) → read_records o ≡ err e → vote_pro ledger vi ca ≡ (err e, charged)
    unfolding vote_pro save_token_from_info
    vote_pro-charged e bad =
        ground (arith, h.sender, save_token_total-charged, records_kept, there, bad)

    -- The second half of a vote can fail after the first has been written: where the epoch's records
    -- cannot be read, the vote returns that error, the voter's tokens are taken all the same, and no
    -- record of them is kept.
    pub vote_pro_partial :
        (e : Error)
        → read_records o ≡ err e
        → let (r, ca') = vote_pro ledger vi ca in
          (r ≡ err e)
          × (get_balance ledger from ca' ≡ ok (sub64 n vi.voting_power))
          × (get_state ledger (get_epoch_record_key vi.vote_epoch) ca' ≡ ok o)
    vote_pro_partial e bad =
        rw (vote_pro-charged e bad) (refl, balance_charged, records_kept ∙ there)
