-- ===== src/Consensus/Algorand/VoteSet/Adding.antt =====
-- consensus/algorand/types/vote.go: what AddVote leaves.
use hnb_blockchain.Prelude.{
  ℕ, suc, ◌<◌, ◌≡◌, refl, ap, subst, ◌∙◌, arith, Bool, true, false, Option, none, some, List, [],
  ◌∷◌, length, not, ◌&&◌, length-set, Bool-cases, inl, inr, ◌≢◌,
}
use hnb_blockchain.Prelude.Bytes.{Bytes, bytes_equal, bytes_equal_iff}
use hnb_blockchain.Prelude.Assoc.{Dict, lookup, insert, lookup-insert}
use hnb_blockchain.Prelude.Int.{ℤ, pos, ◌≤ℤ◌, ltb_ℤ}
use hnb_blockchain.Consensus.Algorand.Types.{
  PartSetHeader, BlockId, Vote, key, block_id_equals, block_id_equals_sound,
}
use hnb_blockchain.Consensus.Algorand.VoteSet.{
  VoteSet, BlockVotes, new_block_votes, tally, quorum, first_majority, copy_votes, count_in,
  count_block, count_conflict, Verified, counted, put_vote, replace_vote, first_vote, verified_at,
}
use hnb_blockchain.Consensus.Algorand.VoteSet.Tallied.{
  IsTally, HasQuorum, IsTallied, new_block_votes-IsTally, tally_at-IsTally, found_at,
}

length-copy_votes :
    (block_votes votes : List (Option Vote)) → length (copy_votes block_votes votes) ≡ length votes
length-copy_votes [] votes = refl
length-copy_votes (o ∷ block_votes) [] = refl
length-copy_votes (none ∷ block_votes) (p ∷ votes) = ap suc (length-copy_votes block_votes votes)
length-copy_votes (some v ∷ block_votes) (p ∷ votes) = ap suc (length-copy_votes block_votes votes)

module _ (part_key : PartSetHeader → Bytes) where
  -- The votes of one block are written, and no fewer than before.
  abbrev pub with_block : Bytes → BlockVotes → VoteSet → VoteSet
  with_block k bv vs = record vs { votes_by_block = insert k bv vs.votes_by_block }

  inserted-IsTally :
      (k j : Bytes) (n : ℕ) (bv b : BlockVotes) (m : Dict BlockVotes)
      → IsTally part_key n k bv
      → ((c : BlockVotes) → lookup j m ≡ some c → IsTally part_key n j c)
      → lookup j (insert k bv m) ≡ some b
      → IsTally part_key n j b
  inserted-IsTally k j n bv b m t h e = elim (Bool-cases (bytes_equal k j)) [
    | inl p ↦
        let q : k ≡ j = (bytes_equal_iff k j).0 p in
        let r : bv ≡ b = ground (arith, lookup-insert k j bv m, p, e) in
        subst (λ (x : BlockVotes). IsTally part_key n j x) r
          (subst (λ (x : Bytes). IsTally part_key n x bv) q t)
    | inr p ↦ h b (ground (arith, lookup-insert k j bv m, p, e))
  ]

  inserted-HasQuorum :
      (k : Bytes) (bv : BlockVotes) (vs : VoteSet) (b : BlockId)
      → ((c : BlockVotes) → lookup k vs.votes_by_block ≡ some c → c.sum ≤ℤ bv.sum)
      → HasQuorum part_key vs b
      → HasQuorum part_key (with_block k bv vs) b
  unfolding quorum
  inserted-HasQuorum k bv vs b h (c, f, q) = elim (Bool-cases (bytes_equal k (key part_key b))) [
    | inl p ↦
        let r : k ≡ key part_key b = (bytes_equal_iff k (key part_key b)).0 p in
        (
          bv,
          lookup-insert k (key part_key b) bv vs.votes_by_block ∙ rw p refl,
          omega (arith, q, h c (ap (λ (x : Bytes). lookup x vs.votes_by_block) r ∙ f)),
        )
    | inr p ↦ (c, lookup-insert k (key part_key b) bv vs.votes_by_block ∙ rw p f, q)
  ]

  pub with_block-IsTallied :
      (k : Bytes) (bv : BlockVotes) (vs : VoteSet)
      → IsTallied part_key vs
      → IsTally part_key (length vs.val_set) k bv
      → ((c : BlockVotes) → lookup k vs.votes_by_block ≡ some c → c.sum ≤ℤ bv.sum)
      → IsTallied part_key (with_block k bv vs)
  with_block-IsTallied k bv vs t s h = record {
    sized = t.sized;
    small = t.small;
    tallies =
        λ j b e. inserted-IsTally k j (length vs.val_set) bv b vs.votes_by_block s (t.tallies j) e;
    majority = λ b e. inserted-HasQuorum k bv vs b h (t.majority b e);
  }

  first_majority-IsTallied :
      (o : Option BlockId) (b : BlockId) (bv : BlockVotes) (vs : VoteSet)
      → IsTallied part_key vs
      → lookup (key part_key b) vs.votes_by_block ≡ some bv
      → quorum vs ≤ℤ bv.sum
      → IsTallied part_key (first_majority o b bv.votes vs)
  unfolding quorum
  first_majority-IsTallied (some a) b bv vs t e q = t
  first_majority-IsTallied none b bv vs t e q = record {
    sized = length-copy_votes bv.votes vs.votes ∙ t.sized;
    small = t.small;
    tallies = t.tallies;
    majority = λ a f.
        let r : b ≡ a = ground (arith, f) in
        subst (λ (x : BlockId). HasQuorum part_key vs x) r (bv, e, q);
  }

  -- A result that is no panic, with a vote set that is tallied; and without a conflict it is added.
  abbrev pub Leaves : Option Verified → Type 0
  Leaves o = (r : Verified) × (o ≡ some r) × IsTallied part_key r.1 × (r.0.1 ≡ none → r.0.0 ≡ true)

  reached_le : (a b q : ℤ) → (ltb_ℤ a q && not (ltb_ℤ b q)) ≡ true → q ≤ℤ b
  reached_le a b q e = ground (arith, e)

  counted-Leaves :
      (bv : BlockVotes) (c : Option Vote) (orig : ℤ) (v : Vote) (k : Bytes) (vs : VoteSet)
      → IsTallied part_key vs
      → IsTally part_key (length vs.val_set) k bv
      → key part_key v.block_id ≡ k
      → ((d : BlockVotes) → lookup k vs.votes_by_block ≡ some d → d.sum ≤ℤ bv.sum)
      → Leaves (counted (some bv) c orig v k vs)
  unfolding quorum
  counted-Leaves bv c orig v k vs t s e h =
      let p = with_block-IsTallied k bv vs t s h in
      (
        _,
        refl,
        elim (Bool-cases (ltb_ℤ orig (quorum vs) && not (ltb_ℤ bv.sum (quorum vs)))) [
          | inl r ↦ rw r (
              first_majority-IsTallied vs.maj23 v.block_id bv (with_block k bv vs) p
                (ap (λ (x : Bytes). lookup x (insert k bv vs.votes_by_block)) e
                  ∙ lookup-insert k k bv vs.votes_by_block
                  ∙ rw ((bytes_equal_iff k k).1 refl) refl)
                (reached_le orig bv.sum (quorum vs) r))
          | inr r ↦ rw r p
        ],
        λ g. refl,
      )

  pub count_in-Leaves :
      (bv : BlockVotes) (c : Option Vote) (v : Vote) (i : ℕ) (k : Bytes) (vs : VoteSet)
      → IsTallied part_key vs
      → IsTally part_key (length vs.val_set) k bv
      → i < length vs.val_set
      → v.validator_index ≡ pos i
      → key part_key v.block_id ≡ k
      → ((d : BlockVotes) → lookup k vs.votes_by_block ≡ some d → d.sum ≤ℤ bv.sum)
      → Leaves (count_in bv c v i k vs)
  unfolding count_in tally
  count_in-Leaves bv c v i k vs t s lt at e h =
      let f = found_at bv.votes i (omega (arith, s.sized)) in
      let r = tally_at-IsTally part_key f.0 v i (length vs.val_set) k bv s t.small at e f.1 in
      rw (f.1, r.1) (counted-Leaves r.0 c bv.sum v k vs t r.2 e (λ d g. omega (arith, h d g, r.3)))

  same_sum :
      (bv : BlockVotes) (k : Bytes) (vs : VoteSet)
      → lookup k vs.votes_by_block ≡ some bv
      → (d : BlockVotes) → lookup k vs.votes_by_block ≡ some d
      → d.sum ≤ℤ bv.sum
  same_sum bv k vs l d g =
      let r : bv ≡ d = ground (arith, l, g) in
      subst (λ (x : BlockVotes). x.sum ≤ℤ bv.sum) r (omega arith)

  count_conflict-Leaves :
      (b : Bool) (bv : BlockVotes) (c v : Vote) (i : ℕ) (k : Bytes) (vs : VoteSet)
      → lookup k vs.votes_by_block ≡ some bv
      → IsTallied part_key vs
      → i < length vs.val_set
      → v.validator_index ≡ pos i
      → key part_key v.block_id ≡ k
      → Leaves (count_conflict b bv c v i k vs)
  count_conflict-Leaves true bv c v i k vs l t lt at e =
      count_in-Leaves bv (some c) v i k vs t (t.tallies k bv l) lt at e (same_sum bv k vs l)
  count_conflict-Leaves false bv c v i k vs l t lt at e =
      (_, refl, t, λ g. absurd (ground (arith, g)))

  count_block-Leaves :
      (o : Option BlockVotes) (c : Option Vote) (v : Vote) (i : ℕ) (k : Bytes) (vs : VoteSet)
      → lookup k vs.votes_by_block ≡ o
      → IsTallied part_key vs
      → i < length vs.val_set
      → v.validator_index ≡ pos i
      → key part_key v.block_id ≡ k
      → Leaves (count_block o c v i k vs)
  count_block-Leaves none none v i k vs l t lt at e =
      count_in-Leaves (new_block_votes false (length vs.val_set)) none v i k vs t
        (new_block_votes-IsTally part_key false (length vs.val_set) k) lt at e
        (λ d g. absurd (ground (arith, l, g)))
  count_block-Leaves none (some c) v i k vs l t lt at e =
      (_, refl, t, λ g. absurd (ground (arith, g)))
  count_block-Leaves (some bv) none v i k vs l t lt at e =
      count_in-Leaves bv none v i k vs t (t.tallies k bv l) lt at e (same_sum bv k vs l)
  count_block-Leaves (some bv) (some c) v i k vs l t lt at e =
      count_conflict-Leaves bv.peer_maj23 bv c v i k vs l t lt at e

  put_vote-IsTallied :
      (v : Vote) (i : ℕ) (vs : VoteSet)
      → IsTallied part_key vs
      → IsTallied part_key (put_vote v i vs)
  unfolding quorum
  put_vote-IsTallied v i vs t = record {
    sized = length-set vs.votes i (some v) ∙ t.sized;
    small = t.small;
    tallies = t.tallies;
    majority = t.majority;
  }

  first_vote-IsTallied :
      (v : Vote) (i : ℕ) (vs : VoteSet)
      → IsTallied part_key vs
      → IsTallied part_key (first_vote v i vs)
  unfolding quorum
  first_vote-IsTallied v i vs t = record {
    sized = length-set vs.votes i (some v) ∙ t.sized;
    small = t.small;
    tallies = t.tallies;
    majority = t.majority;
  }

  -- A conflicting vote, put in place of the first one or not.
  replaced-Leaves :
      (o : Option BlockId) (x v : Vote) (i : ℕ) (k : Bytes) (vs : VoteSet)
      → IsTallied part_key vs
      → i < length vs.val_set
      → v.validator_index ≡ pos i
      → key part_key v.block_id ≡ k
      → Leaves (
          count_block
            (lookup k vs.votes_by_block)
            (some x)
            v
            i
            k
            (replace_vote part_key o v i k vs))
  replaced-Leaves none x v i k vs t lt at e =
      count_block-Leaves (lookup k vs.votes_by_block) (some x) v i k vs refl t lt at e
  replaced-Leaves (some b) x v i k vs t lt at e =
      elim (Bool-cases (bytes_equal (key part_key b) k)) [
        | inl p ↦ rw p (
            count_block-Leaves (lookup k vs.votes_by_block) (some x) v i k (put_vote v i vs) refl
              (put_vote-IsTallied v i vs t) lt at e)
        | inr p ↦
            rw p (count_block-Leaves (lookup k vs.votes_by_block) (some x) v i k vs refl t lt at e)
      ]

  -- No vote of the validator for the same block is there before.
  pub verified_at-Leaves :
      (o : Option Vote) (v : Vote) (i : ℕ) (k : Bytes) (vs : VoteSet)
      → IsTallied part_key vs
      → i < length vs.val_set
      → v.validator_index ≡ pos i
      → key part_key v.block_id ≡ k
      → ((x : Vote) → o ≡ some x → key part_key x.block_id ≢ k)
      → Leaves (verified_at part_key (some o) v i k vs)
  verified_at-Leaves none v i k vs t lt at e h =
      count_block-Leaves (lookup k vs.votes_by_block) none v i k (first_vote v i vs) refl
        (first_vote-IsTallied v i vs t) lt at e
  verified_at-Leaves (some x) v i k vs t lt at e h =
      elim (Bool-cases (block_id_equals x.block_id v.block_id)) [
        | inl p ↦
            absurd
              (h x refl (ap (key part_key) (block_id_equals_sound x.block_id v.block_id p) ∙ e))
        | inr p ↦ rw p (replaced-Leaves vs.maj23 x v i k vs t lt at e)
      ]
