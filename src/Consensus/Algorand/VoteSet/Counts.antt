-- ===== src/Consensus/Algorand/VoteSet/Counts.antt =====
-- consensus/algorand/types/vote.go: how many votes stand in a list by validator, and how many
-- validators have a vote in two of them.
use hnb_blockchain.Prelude.{
  ℕ, zero, suc, ◌+◌, ◌≤◌, ◌≡◌, refl, arith, Option, none, some, List, [], ◌∷◌, length, set,
  get_elem?, replicate,
}
use hnb_blockchain.Consensus.Algorand.Types.{Vote}

abbrev pub one_if : Option Vote → ℕ
one_if none = 0
one_if (some v) = 1

abbrev pub count_votes : List (Option Vote) → ℕ
count_votes [] = 0
count_votes (o ∷ votes) = one_if o + count_votes votes

abbrev pub both_of : Option Vote → Option Vote → ℕ
both_of (some v) (some w) = 1
both_of (some v) none = 0
both_of none o = 0

-- The validators with a vote in both lists.
abbrev pub count_both : List (Option Vote) → List (Option Vote) → ℕ
count_both [] votes = 0
count_both (o ∷ votes) [] = 0
count_both (o ∷ votes) (p ∷ votes') = both_of o p + count_both votes votes'

pub count_votes-replicate : (n : ℕ) → count_votes (replicate n none) ≡ 0
count_votes-replicate zero = refl
count_votes-replicate (suc n) = omega (arith, count_votes-replicate n)

one_if_le : (o : Option Vote) → one_if o ≤ 1
one_if_le none = omega arith
one_if_le (some v) = omega arith

pub count_votes_le : (votes : List (Option Vote)) → count_votes votes ≤ length votes
count_votes_le [] = omega arith
count_votes_le (o ∷ votes) = omega (arith, one_if_le o, count_votes_le votes)

-- A vote at a free index adds one.
pub count_votes-set :
    (votes : List (Option Vote)) (i : ℕ) (v : Vote)
    → get_elem? votes i ≡ some none
    → count_votes (set votes i (some v)) ≡ suc (count_votes votes)
count_votes-set [] i v e = absurd (ground (arith, e))
count_votes-set (none ∷ votes) zero v e = omega arith
count_votes-set (some w ∷ votes) zero v e = absurd (ground (arith, e))
count_votes-set (o ∷ votes) (suc i) v e = omega (arith, count_votes-set votes i v e)

both_le : (o p : Option Vote) → one_if o + one_if p ≤ 1 + both_of o p
both_le none none = omega arith
both_le none (some w) = omega arith
both_le (some v) none = omega arith
both_le (some v) (some w) = omega arith

-- Of two lists for the same validators, the votes beyond their number are of validators in both.
pub count_both_le :
    (votes votes' : List (Option Vote))
    → length votes ≡ length votes'
    → count_votes votes + count_votes votes' ≤ length votes + count_both votes votes'
count_both_le [] [] e = omega arith
count_both_le [] (p ∷ votes') e = absurd (ground (arith, e))
count_both_le (o ∷ votes) [] e = absurd (ground (arith, e))
count_both_le (o ∷ votes) (p ∷ votes') e =
    omega (arith, both_le o p, count_both_le votes votes' (omega arith))
