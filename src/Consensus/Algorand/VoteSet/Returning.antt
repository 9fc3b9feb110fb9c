-- ===== src/Consensus/Algorand/VoteSet/Returning.antt =====
-- consensus/algorand/types/vote.go: AddVote and SetPeerMaj23 do not panic in the life of a vote set, and
-- what the set knows stays true.
use hnb_blockchain.Prelude.{
  ℕ, zero, suc, ◌<◌, ◌^◌, ◌==◌, ◌≡◌, refl, ap, sym, subst, ◌∙◌, arith, Bool, true, false, Option,
  none, some, List, [], ◌∷◌, length, get_elem?, if◌then◌else◌, Bool-cases, inl, inr, ◌≢◌,
  length-replicate,
}
use hnb_blockchain.Prelude.Bytes.{Bytes, bytes_equal, bytes_equal_iff}
use hnb_blockchain.Prelude.Assoc.{lookup, insert}
use hnb_blockchain.Prelude.Int.{ℤ, pos, negsuc, ◌≤ℤ◌}
use hnb_blockchain.Consensus.Dbft.Types.{Validator}
use hnb_blockchain.Consensus.Algorand.Types.{PartSetHeader, BlockId, Vote, key}
use hnb_blockchain.Consensus.Algorand.VoteSet.{
  VoteSet, BlockVotes, new_block_votes, quorum, Verified, verified_at, add_verified_vote, get_vote,
  vote_if_key, vote_of_block, Added, VoteError, refused, reported, add_unless, add_signed, add_at,
  same_step, add_vote, claimed, claim, set_peer_maj23, empty_vote_set,
}
use hnb_blockchain.Consensus.Algorand.VoteSet.Tallied.{
  IsTally, IsTallied, new_block_votes-IsTally, found_at,
}
use hnb_blockchain.Consensus.Algorand.VoteSet.Adding.{
  with_block-IsTallied, Leaves, verified_at-Leaves,
}

validator_there :
    (l : List Validator) (i : ℕ) (v : Validator) → get_elem? l i ≡ some v → i < length l
validator_there [] i v e = absurd (ground (arith, e))
validator_there (x ∷ l) zero v e = omega arith
validator_there (x ∷ l) (suc i) v e = omega (arith, validator_there l i v e)

module _ (part_key : PartSetHeader → Bytes) where
  -- The answer of getVote, and where it is nil, no vote of the validator for that block.
  abbrev pub Answers : Option (Option Vote) → Option Vote → Bytes → Type 0
  Answers a o k =
      (g : Option Vote) × (a ≡ some g)
      × (g ≡ none → (x : Vote) → o ≡ some x → key part_key x.block_id ≢ k)

  answered :
      (o g : Option Vote) (k : Bytes) → Answers (vote_if_key part_key k (some o) (some g)) o k
  answered none g k = (g, refl, λ e x f. absurd (ground (arith, f)))
  answered (some x) g k = elim (Bool-cases (bytes_equal (key part_key x.block_id) k)) [
    | inl p ↦ (some x, rw p refl, λ e. absurd (ground (arith, e)))
    | inr p ↦ (
      g,
      rw p refl,
      λ e y f q.
          let r : x ≡ y = ground (arith, f) in
          ground (
            arith,
            p,
            (bytes_equal_iff (key part_key x.block_id) k).1
                (ap (λ (z : Vote). key part_key z.block_id) r ∙ q),
          ),
    )
  ]

  block_answers :
      (o : Option BlockVotes) (i n : ℕ) (k : Bytes)
      → ((bv : BlockVotes) → o ≡ some bv → IsTally part_key n k bv)
      → i < n
      → (g : Option Vote) × (vote_of_block i o ≡ some g)
  block_answers none i n k h lt = (none, refl)
  block_answers (some bv) i n k h lt = found_at bv.votes i (omega (arith, (h bv refl).sized))

  get_vote-Answers :
      (i : ℕ) (k : Bytes) (vs : VoteSet) (o : Option Vote)
      → IsTallied part_key vs
      → i < length vs.val_set
      → get_elem? vs.votes i ≡ some o
      → Answers (get_vote part_key i k vs) o k
  unfolding get_vote
  get_vote-Answers i k vs o t lt e =
      let b = block_answers (lookup k vs.votes_by_block) i (length vs.val_set) k (t.tallies k) lt in
      rw (e, b.1) (answered o b.0 k)

  -- A result that is no panic, with a vote set that is tallied.
  abbrev pub Returns : Option Added → Type 0
  Returns o = (r : Added) × (o ≡ some r) × IsTallied part_key r.1

  verified-Returns :
      (added : Bool) (c : Option Vote) (vs : VoteSet)
      → IsTallied part_key vs
      → (c ≡ none → added ≡ true)
      → Returns (reported (some ((added, c), vs)))
  verified-Returns added (some c) vs t h = (_, refl, t)
  verified-Returns true none vs t h = (_, refl, t)
  verified-Returns false none vs t h = absurd (ground (arith, h refl))

  reported-Returns : (o : Option Verified) → Leaves part_key o → Returns (reported o)
  reported-Returns o (r, e, t, h) =
      subst (λ (x : Option Verified). Returns (reported x)) (sym e)
        (verified-Returns r.0.0 r.0.1 r.1 t h)

  add_unless-Returns :
      (g o : Option Vote) (v : Vote) (i : ℕ) (vs : VoteSet)
      → IsTallied part_key vs
      → i < length vs.val_set
      → v.validator_index ≡ pos i
      → get_elem? vs.votes i ≡ some o
      → (g ≡ none → (x : Vote) → o ≡ some x → key part_key x.block_id ≢ key part_key v.block_id)
      → Returns (add_unless part_key (some g) v i vs)
  unfolding add_verified_vote
  add_unless-Returns (some x) o v i vs t lt at e h = (_, refl, t)
  add_unless-Returns none o v i vs t lt at e h = rw e (
      reported-Returns (verified_at part_key (some o) v i (key part_key v.block_id) vs)
        (verified_at-Leaves part_key o v i (key part_key v.block_id) vs t lt at refl (h refl)))

  add_signed-Returns :
      (w : Option Validator) (v : Vote) (i : ℕ) (vs : VoteSet)
      → IsTallied part_key vs
      → v.validator_index ≡ pos i
      → get_elem? vs.val_set i ≡ w
      → Returns (add_signed part_key w v i vs)
  add_signed-Returns none v i vs t at e = (_, refl, t)
  add_signed-Returns (some w) v i vs t at e =
      elim (Bool-cases (bytes_equal v.validator_address w.address)) [
        | inl p ↦
            let lt = validator_there vs.val_set i w e in
            let f = found_at vs.votes i (omega (arith, t.sized, lt)) in
            let g = get_vote-Answers i (key part_key v.block_id) vs f.0 t lt f.1 in
            rw (p, g.1) (add_unless-Returns g.0 f.0 v i vs t lt at f.1 g.2)
        | inr p ↦ rw p (_, refl, t)
      ]

  at_step-Returns :
      (step : Bool) (v : Vote) (i : ℕ) (vs : VoteSet)
      → IsTallied part_key vs
      → v.validator_index ≡ pos i
      → Returns (
          if step
          then add_signed part_key (get_elem? vs.val_set i) v i vs
          else refused VoteError.unexpected_step vs)
  at_step-Returns true v i vs t at = add_signed-Returns (get_elem? vs.val_set i) v i vs t at refl
  at_step-Returns false v i vs t at = (_, refl, t)

  add_at-Returns :
      (z : ℤ) (v : Vote) (vs : VoteSet)
      → IsTallied part_key vs
      → v.validator_index ≡ z
      → Returns (add_at part_key z v vs)
  add_at-Returns (negsuc n) v vs t at = (_, refl, t)
  add_at-Returns (pos i) v vs t at = elim (Bool-cases (length v.validator_address == 0)) [
    | inl p ↦ rw p (_, refl, t)
    | inr p ↦ rw p (at_step-Returns (same_step v vs) v i vs t at)
  ]

  -- AddVote, in a vote set whose votes are tallied, does not panic on any vote or on none, and leaves the
  -- votes tallied: the votes of each block stand at their validators' indices, are for that block, and
  -- are summed once each; and a block that has the majority has the votes of a quorum.
  pub add_vote-IsTallied :
      (o : Option Vote) (vs : VoteSet)
      → IsTallied part_key vs
      → (r : Added) × (add_vote part_key o vs ≡ some r) × IsTallied part_key r.1
  unfolding add_vote
  add_vote-IsTallied none vs t = (_, refl, t)
  add_vote-IsTallied (some v) vs t = add_at-Returns v.validator_index v vs t refl

  claimed-IsTally :
      (k : Bytes) (bv : BlockVotes) (n : ℕ)
      → IsTally part_key n k bv
      → IsTally part_key n k (record bv { peer_maj23 = true })
  claimed-IsTally k bv n t = record { sized = t.sized; summed = t.summed; each = t.each }

  claimed-IsTallied :
      (o : Option BlockVotes) (b : BlockId) (vs : VoteSet)
      → IsTallied part_key vs
      → lookup (key part_key b) vs.votes_by_block ≡ o
      → IsTallied part_key (claimed part_key o b vs)
  claimed-IsTallied none b vs t e =
      with_block-IsTallied part_key (key part_key b) (new_block_votes true (length vs.val_set)) vs t
        (new_block_votes-IsTally part_key true (length vs.val_set) (key part_key b))
        (λ c f. absurd (ground (arith, e, f)))
  claimed-IsTallied (some bv) b vs t e =
      with_block-IsTallied part_key (key part_key b) (record bv { peer_maj23 = true }) vs t
        (claimed-IsTally (key part_key b) bv (length vs.val_set) (t.tallies (key part_key b) bv e))
        (λ c f.
          let r : bv ≡ c = ground (arith, e, f) in
          subst (λ (x : BlockVotes). x.sum ≤ℤ bv.sum) r (omega arith))

  recorded-IsTallied :
      (peer : Bytes) (b : BlockId) (vs : VoteSet)
      → IsTallied part_key vs
      → IsTallied part_key (record vs { peer_maj23s = insert peer b vs.peer_maj23s })
  unfolding quorum
  recorded-IsTallied peer b vs t = record {
    sized = t.sized;
    small = t.small;
    tallies = t.tallies;
    majority = t.majority;
  }

  claim-IsTallied :
      (o : Option BlockId) (peer : Bytes) (b : BlockId) (vs : VoteSet)
      → IsTallied part_key vs
      → IsTallied part_key (claim part_key o peer b vs).1
  claim-IsTallied (some a) peer b vs t = t
  claim-IsTallied none peer b vs t =
      claimed-IsTallied (lookup (key part_key b) vs.votes_by_block) b
        (record vs { peer_maj23s = insert peer b vs.peer_maj23s }) (recorded-IsTallied peer b vs t)
        refl

  pub set_peer_maj23-IsTallied :
      (peer : Bytes) (b : BlockId) (vs : VoteSet)
      → IsTallied part_key vs
      → IsTallied part_key (set_peer_maj23 part_key peer b vs).1
  unfolding set_peer_maj23
  set_peer_maj23-IsTallied peer b vs t = claim-IsTallied (lookup peer vs.peer_maj23s) peer b vs t

  pub empty_vote_set-IsTallied :
      (height : ℕ) (round : ℤ) (type_ : ℕ) (val_set : List Validator)
      → length val_set < 2 ^ 63
      → IsTallied part_key (empty_vote_set height round type_ val_set)
  unfolding lookup
  empty_vote_set-IsTallied height round type_ val_set h = record {
    sized = length-replicate (length val_set) none;
    small = h;
    tallies = λ k bv e. absurd (ground (arith, e));
    majority = λ b e. absurd (ground (arith, e));
  }
