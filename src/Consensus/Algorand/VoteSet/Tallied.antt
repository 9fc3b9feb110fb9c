-- ===== src/Consensus/Algorand/VoteSet/Tallied.antt =====
-- consensus/algorand/types/vote.go: the invariant of a vote set, and that AddVote keeps it and does not
-- panic.
use hnb_blockchain.Prelude.{
  ℕ, zero, suc, ◌<◌, ◌^◌, ◌≡◌, refl, ap, sym, subst, ◌∙◌, arith, Bool, true, Option, none, some,
  List, [], ◌∷◌, length, set, get_elem?, replicate, length-set, length-replicate, inl, inr, ◌≢◌,
  ◌⊎◌,
}
use hnb_blockchain.Prelude.Bytes.{Bytes}
use hnb_blockchain.Prelude.Assoc.{lookup}
use hnb_blockchain.Prelude.Int.{ℤ, pos, ◌≤ℤ◌, add64, add64_fits, ◌+ℤ◌}
use hnb_blockchain.Consensus.Algorand.Types.{PartSetHeader, BlockId, Vote, key}
use hnb_blockchain.Consensus.Algorand.VoteSet.{
  VoteSet, BlockVotes, new_block_votes, tally_at, quorum,
}
use hnb_blockchain.Consensus.Algorand.VoteSet.Counts.{
  count_votes, count_votes-replicate, count_votes_le, count_votes-set,
}

pub found_at :
    (l : List (Option Vote)) (i : ℕ) → i < length l → (o : Option Vote) × (get_elem? l i ≡ some o)
found_at [] i h = absurd (omega arith)
found_at (x ∷ l) zero h = (x, refl)
found_at (x ∷ l) (suc i) h = found_at l i (omega arith)

module _ (part_key : PartSetHeader → Bytes) where
  -- The votes of one block: each stands at its validator's index, for that block, and is counted once.
  pub record IsTally (size : ℕ) (block_key : Bytes) (bv : BlockVotes) : Type 0 where
    pub sized : length bv.votes ≡ size
    pub summed : bv.sum ≡ pos (count_votes bv.votes)
    pub each :
        (i : ℕ) (v : Vote)
        → get_elem? bv.votes i ≡ some (some v)
        → (v.validator_index ≡ pos i) × (key part_key v.block_id ≡ block_key)

  -- The block with the majority has a quorum of votes.
  abbrev pub HasQuorum : VoteSet → BlockId → Type 0
  HasQuorum vs b =
      (bv : BlockVotes) × (lookup (key part_key b) vs.votes_by_block ≡ some bv)
      × (quorum vs ≤ℤ bv.sum)

  pub record IsTallied (vs : VoteSet) : Type 0 where
    pub sized : length vs.votes ≡ length vs.val_set
    pub small : length vs.val_set < 2 ^ 63
    pub tallies :
        (k : Bytes) (bv : BlockVotes)
        → lookup k vs.votes_by_block ≡ some bv
        → IsTally (length vs.val_set) k bv
    pub majority : (b : BlockId) → vs.maj23 ≡ some b → HasQuorum vs b

  none_there : (n i : ℕ) (v : Vote) → get_elem? (replicate n none) i ≢ some (some v)
  none_there zero i v e = ground (arith, e)
  none_there (suc n) zero v e = ground (arith, e)
  none_there (suc n) (suc i) v e = none_there n i v e

  pub new_block_votes-IsTally :
      (peer_maj23 : Bool) (n : ℕ) (k : Bytes) → IsTally n k (new_block_votes peer_maj23 n)
  unfolding new_block_votes
  new_block_votes-IsTally peer_maj23 n k = record {
    sized = length-replicate n none;
    summed = ap pos (sym (count_votes-replicate n));
    each = λ i v e. absurd (none_there n i v e);
  }

  one_more : (n : ℕ) → suc n < 2 ^ 63 → add64 (pos n) (pos 1) ≡ pos (suc n)
  unfolding ◌+ℤ◌
  one_more n h = add64_fits (pos n) (pos 1) (ground arith) ∙ ground arith

  in_range :
      (l : List (Option Vote)) (i : ℕ) (o : Option Vote) → get_elem? l i ≡ some o → i < length l
  in_range [] i o e = absurd (ground (arith, e))
  in_range (x ∷ l) zero o e = omega arith
  in_range (x ∷ l) (suc i) o e = omega (arith, in_range l i o e)

  -- What stands at an index after a write.
  set_at :
      (l : List (Option Vote)) (i j : ℕ) (v w : Vote)
      → get_elem? (set l i (some v)) j ≡ some (some w)
      → (i ≡ j) × (v ≡ w) ⊎ (get_elem? l j ≡ some (some w))
  set_at [] i j v w e = absurd (ground (arith, e))
  set_at (x ∷ l) zero zero v w e = inl (refl, ground (arith, e))
  set_at (x ∷ l) zero (suc j) v w e = inr e
  set_at (x ∷ l) (suc i) zero v w e = inr e
  set_at (x ∷ l) (suc i) (suc j) v w e = elim (set_at l i j v w e) [
    | inl p ↦ inl (ap suc p.0, p.1)
    | inr q ↦ inr q
  ]

  -- A vote for the block is taken, at an index in range.
  pub tally_at-IsTally :
      (o : Option Vote) (v : Vote) (i n : ℕ) (k : Bytes) (bv : BlockVotes)
      → IsTally n k bv
      → n < 2 ^ 63
      → v.validator_index ≡ pos i
      → key part_key v.block_id ≡ k
      → get_elem? bv.votes i ≡ some o
      → (bv' : BlockVotes) × (tally_at (some o) v i (pos 1) bv ≡ some bv')
        × IsTally n k bv'
        × (bv.sum ≤ℤ bv'.sum)
  tally_at-IsTally (some w) v i n k bv t small at block e = (bv, refl, t, omega arith)
  tally_at-IsTally none v i n k bv t small at block e = (
    record bv {
      bit_array = set bv.bit_array i true;
      votes = set bv.votes i (some v);
      sum = add64 bv.sum (pos 1);
    },
    refl,
    record {
      sized = length-set bv.votes i (some v) ∙ t.sized;
      summed = counts;
      each = λ j w f. elim (set_at bv.votes i j v w f) [
        | inl p ↦ placed j w p.0 p.1
        | inr q ↦ t.each j w q
      ];
    },
    grows,
  )
    where
      placed :
          (j : ℕ) (w : Vote)
          → i ≡ j
          → v ≡ w
          → (w.validator_index ≡ pos j) × (key part_key w.block_id ≡ k)
      placed j w p q =
          subst (λ (x : Vote). (x.validator_index ≡ pos j) × (key part_key x.block_id ≡ k)) q
            (at ∙ ap pos p, block)

      more : count_votes (set bv.votes i (some v)) ≡ suc (count_votes bv.votes)
      more = count_votes-set bv.votes i v e

      room : suc (count_votes bv.votes) < 2 ^ 63
      room = omega (
        arith,
        more,
        count_votes_le (set bv.votes i (some v)),
        length-set bv.votes i (some v),
        t.sized,
      )

      counts : add64 bv.sum (pos 1) ≡ pos (count_votes (set bv.votes i (some v)))
      counts =
          ap (λ (s : ℤ). add64 s (pos 1)) t.summed
          ∙ one_more (count_votes bv.votes) room
          ∙ ap pos (sym more)

      grows : bv.sum ≤ℤ add64 bv.sum (pos 1)
      grows =
          subst (λ (s : ℤ). s ≤ℤ add64 bv.sum (pos 1)) (sym t.summed)
            (subst (λ (s : ℤ). pos (count_votes bv.votes) ≤ℤ s) (sym (counts ∙ ap pos more))
              (omega arith))
