-- ===== src/Contract/Hnb/Vote/Tally.antt =====
-- The votes of an epoch and the records of the tokens behind them stay equal in sum.
use hnb_blockchain.Prelude.{
  ◌≡◌, ◌∙◌, ap, refl, sym, inl, inr, List, [], ◌∷◌, ◌++◌, arith, Bool-cases,
}
use hnb_blockchain.Prelude.Int.{ℤ, pos, add64}
use hnb_blockchain.Prelude.Int.Wrap.{add64_assoc, add64_comm, add64_zero}
use hnb_blockchain.Prelude.Bytes.{Bytes, bytes_equal}
use hnb_blockchain.Prelude.Assoc.{Dict, lookup, insert}
use hnb_blockchain.State.{VoteRecord}
use hnb_blockchain.Hex.{byte_to_hex}
use hnb_blockchain.Contract.Hnb.Vote.{or_zero, add_vote, sum_votes}

-- The tokens of the records, in `int64`.
abbrev pub sum_records : ℤ → List VoteRecord → ℤ
sum_records sum [] = sum
sum_records sum (v ∷ vs) = sum_records (add64 sum v.voting_power) vs

swap_add : (s a b : ℤ) → add64 (add64 s a) b ≡ add64 (add64 s b) a
swap_add s a b = add64_assoc s a b ∙ ap (add64 s) (add64_comm a b) ∙ sym (add64_assoc s b a)

sum_votes-add64 : (s p : ℤ) (m : Dict ℤ) → sum_votes (add64 s p) m ≡ add64 (sum_votes s m) p
unfolding sum_votes
sum_votes-add64 s p [] = refl
sum_votes-add64 s p ((k, v) ∷ m) =
    ap (λ t. sum_votes t m) (swap_add s p v) ∙ sum_votes-add64 (add64 s v) p m

sum_votes-insert :
    (k : Bytes) (s p : ℤ) (m : Dict ℤ)
    → sum_votes s (insert k (add64 (or_zero (lookup k m)) p) m) ≡ add64 (sum_votes s m) p
unfolding sum_votes insert lookup
sum_votes-insert k s p [] = add64_zero s p
sum_votes-insert k s p ((j, v) ∷ m) = elim (Bool-cases (bytes_equal j k)) [
  | inl same ↦
      rw same (ap (λ t. sum_votes t m) (sym (add64_assoc s v p)) ∙ sum_votes-add64 (add64 s v) p m)
  | inr other ↦ ground (arith, sum_votes-insert k (add64 s v) p m)
]

sum_records-append :
    (s : ℤ) (vs : List VoteRecord) (v : VoteRecord)
    → sum_records s (vs ++ v ∷ []) ≡ add64 (sum_records s vs) v.voting_power
sum_records-append s [] v = refl
sum_records-append s (w ∷ vs) v = sum_records-append (add64 s w.voting_power) vs v

-- One vote adds its tokens to the sum over the candidates and to the sum over the records: where
-- the two were equal, they are equal after it.
pub add_vote_tally :
    (candidate from : Bytes) (power : ℤ) (m : Dict ℤ) (vs : List VoteRecord)
    → sum_votes (pos 0) m ≡ sum_records (pos 0) vs
    → sum_votes (pos 0) (add_vote candidate power m)
      ≡ sum_records (pos 0) (vs ++ record { from_addr = from; voting_power = power } ∷ [])
unfolding add_vote
add_vote_tally candidate from power m vs h =
    sum_votes-insert (byte_to_hex candidate) (pos 0) power m
    ∙ ap (λ t. add64 t power) h
    ∙ sym (sum_records-append (pos 0) vs (record { from_addr = from; voting_power = power }))
