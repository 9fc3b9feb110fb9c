-- ===== src/Consensus/Algorand/VoteSet/Agreement.antt =====
-- consensus/algorand/types/vote.go: the life of a vote set, and what two majorities for different blocks
-- mean.
use hnb_blockchain.Prelude.{
  ℕ, ◌+◌, ◌*◌, ◌/◌, ◌<◌, ◌≤◌, ◌^◌, ◌≡◌, ap, sym, subst, ◌∙◌, arith, Option, some, List, length,
}
use hnb_blockchain.Prelude.Bytes.{Bytes}
use hnb_blockchain.Prelude.Assoc.{lookup}
use hnb_blockchain.Prelude.Int.{ℤ, pos, ◌≤ℤ◌, ◌*ℤ◌, ◌+ℤ◌, mul64, add64, wrap64}
use hnb_blockchain.Consensus.Dbft.Types.{Validator}
use hnb_blockchain.Consensus.Algorand.Types.{
  PartSetHeader, BlockId, Vote, key, total_voting_power, two_thirds,
}
use hnb_blockchain.Consensus.Algorand.VoteSet.{
  VoteSet, BlockVotes, quorum, Added, add_vote, set_peer_maj23, new_vote_set, empty_vote_set,
  two_thirds_majority,
}
use hnb_blockchain.Consensus.Algorand.VoteSet.Counts.{count_votes, count_both, count_both_le}
use hnb_blockchain.Consensus.Algorand.VoteSet.Tallied.{IsTally, IsTallied}
use hnb_blockchain.Consensus.Algorand.VoteSet.Returning.{
  add_vote-IsTallied, set_peer_maj23-IsTallied, empty_vote_set-IsTallied,
}

-- Two thirds, rounded down, and one.
quorum-eq :
    (vs : VoteSet) (n : ℕ)
    → total_voting_power vs.val_set ≡ pos n
    → n < 2 ^ 62
    → quorum vs ≡ pos (n * 2 / 3 + 1)
unfolding quorum two_thirds mul64 add64 wrap64 ◌*ℤ◌ ◌+ℤ◌
quorum-eq vs n e h = rw e (ground arith)

module _ (part_key : PartSetHeader → Bytes) where
  -- The vote sets that a new one becomes by votes and by claims of peers.
  pub data Reached : VoteSet → Type 0 where
    opened :
        (height : ℕ) (round : ℤ) (type_ : ℕ) (val_set : List Validator) {vs : VoteSet}
        → length val_set < 2 ^ 63
        → new_vote_set height round type_ val_set ≡ some vs
        → Reached vs
    voted :
        (o : Option Vote) {vs : VoteSet} {r : Added}
        → Reached vs
        → add_vote part_key o vs ≡ some r
        → Reached r.1
    claimed_by :
        (peer : Bytes) (b : BlockId) {vs : VoteSet}
        → Reached vs
        → Reached (set_peer_maj23 part_key peer b vs).1

  opened-IsTallied :
      (height : ℕ) (round : ℤ) (type_ : ℕ) (val_set : List Validator) (vs : VoteSet)
      → length val_set < 2 ^ 63
      → new_vote_set height round type_ val_set ≡ some vs
      → IsTallied part_key vs
  unfolding new_vote_set
  opened-IsTallied height round type_ val_set vs h e =
      let r : empty_vote_set height round type_ val_set ≡ vs = ground (arith, e) in
      subst (λ (x : VoteSet). IsTallied part_key x) r
        (empty_vote_set-IsTallied part_key height round type_ val_set h)

  pub Reached-IsTallied : {vs : VoteSet} → Reached vs → IsTallied part_key vs
  Reached-IsTallied (opened height round type_ val_set {vs} h e) =
      opened-IsTallied height round type_ val_set vs h e
  Reached-IsTallied (voted o {vs} {r} h e) =
      let t = add_vote-IsTallied part_key o vs (Reached-IsTallied h) in
      let q : t.0 ≡ r = ground (arith, t.1, e) in
      subst (λ (x : Added). IsTallied part_key x.1) q t.2
  Reached-IsTallied (claimed_by peer b {vs} h) =
      set_peer_maj23-IsTallied part_key peer b vs (Reached-IsTallied h)

  -- The votes that the one set holds for one block and the other set for another: each stands at its
  -- validator's index and is for its block, and more than a third of the validators gave both.
  abbrev pub HaveDoubles : VoteSet → BlockId → VoteSet → BlockId → Type 0
  HaveDoubles vs b vs' b' =
      (bv bv' : BlockVotes) × (lookup (key part_key b) vs.votes_by_block ≡ some bv)
      × (lookup (key part_key b') vs'.votes_by_block ≡ some bv')
      × IsTally part_key (length vs.val_set) (key part_key b) bv
      × IsTally part_key (length vs.val_set) (key part_key b') bv'
      × (length vs.val_set < 3 * count_both bv.votes bv'.votes)

  counts_quorum :
      (vs : VoteSet) (n : ℕ) (k : Bytes) (bv : BlockVotes)
      → total_voting_power vs.val_set ≡ pos n
      → n < 2 ^ 62
      → IsTally part_key n k bv
      → quorum vs ≤ℤ bv.sum
      → n * 2 / 3 + 1 ≤ count_votes bv.votes
  counts_quorum vs n k bv e h t q =
      let s = subst (λ (x : ℤ). x ≤ℤ bv.sum) (quorum-eq vs n e h) q in
      let w : pos (n * 2 / 3 + 1) ≤ℤ pos (count_votes bv.votes) =
        subst (λ (x : ℤ). pos (n * 2 / 3 + 1) ≤ℤ x) t.summed s in
      omega (arith, w)

  -- Two vote sets that votes and claims lead to, of the same validators, whose total power is their number
  -- and below 2 ^ 62: where one set has a majority for a block and the other set has one for a block too,
  -- more than a third of the validators have a vote among those that the one set holds for its block and a
  -- vote among those that the other set holds for its block.
  pub majorities_overlap :
      (vs vs' : VoteSet) (b b' : BlockId)
      → Reached vs
      → Reached vs'
      → vs'.val_set ≡ vs.val_set
      → total_voting_power vs.val_set ≡ pos (length vs.val_set)
      → length vs.val_set < 2 ^ 62
      → two_thirds_majority vs ≡ some b
      → two_thirds_majority vs' ≡ some b'
      → HaveDoubles vs b vs' b'
  unfolding two_thirds_majority
  majorities_overlap vs vs' b b' r r' same power small m m' =
      let t = Reached-IsTallied r in
      let t' = Reached-IsTallied r' in
      let (bv, e, q) = t.majority b m in
      let (bv', e', q') = t'.majority b' m' in
      let n = length vs.val_set in
      let s = t.tallies (key part_key b) bv e in
      let s' : IsTally part_key n (key part_key b') bv' =
        subst (λ (l : List Validator). IsTally part_key (length l) (key part_key b') bv') same
          (t'.tallies (key part_key b') bv' e') in
      let c = counts_quorum vs n (key part_key b) bv power small s q in
      let c' =
        counts_quorum vs' n (key part_key b') bv' (ap total_voting_power same ∙ power) small s'
          q' in
      (
        bv,
        bv',
        e,
        e',
        s,
        s',
        omega (
          arith,
          c,
          c',
          s.sized,
          s'.sized,
          count_both_le bv.votes bv'.votes (s.sized ∙ sym s'.sized),
        ),
      )
