-- ===== src/Consensus/Algorand/HeightVoteSet/Rounds.antt =====
-- consensus/algorand/types/height_vote_set.go: the latest round with a majority, and what the vote sets
-- of all rounds keep.
use hnb_blockchain.Prelude.{
  ℕ, zero, suc, ◌<◌, ◌≤◌, ◌≡◌, refl, ap, sym, subst, ◌∙◌, ◌⊎◌, arith, Option, none, some, inl, inr,
}
use hnb_blockchain.Prelude.Int.{ℤ, pos}
use hnb_blockchain.Consensus.Algorand.Types.{BlockId, vote_type_prevote}
use hnb_blockchain.Consensus.Algorand.HeightVoteSet.{
  HeightVoteSet, get_vote_set, majority_of, first_of, pol_from, pol_at, pol_info,
}

-- The block with the majority of the prevotes of a round.
abbrev pub prevoted : HeightVoteSet → ℕ → Option BlockId
prevoted hvs r = majority_of (get_vote_set (pos r) vote_type_prevote hvs)

-- The latest round up to `n` where prevotes have a majority, or no round.
abbrev pub IsLatest : HeightVoteSet → ℕ → Option (ℤ × BlockId) → Type 0
IsLatest hvs n none = (r : ℕ) → r ≤ n → prevoted hvs r ≡ none
IsLatest hvs n (some (z, b)) =
    (r : ℕ) × (z ≡ pos r)
    × (r ≤ n)
    × (prevoted hvs r ≡ some b)
    × ((s : ℕ) → r < s → s ≤ n → prevoted hvs s ≡ none)

last_or : (n s : ℕ) → s ≤ suc n → (s ≤ n) ⊎ (s ≡ suc n)
last_or n s h = ground arith

none_at :
    (hvs : HeightVoteSet) (n s : ℕ)
    → prevoted hvs (suc n) ≡ none
    → (s ≤ n → prevoted hvs s ≡ none)
    → s ≤ suc n
    → prevoted hvs s ≡ none
none_at hvs n s e h l = elim (last_or n s l) [ inl p ↦ h p | inr p ↦ ap (prevoted hvs) p ∙ e ]

one_later :
    (hvs : HeightVoteSet) (n : ℕ) (o : Option (ℤ × BlockId))
    → prevoted hvs (suc n) ≡ none
    → IsLatest hvs n o
    → IsLatest hvs (suc n) o
one_later hvs n none e h = λ s l. none_at hvs n s e (h s) l
one_later hvs n (some (z, b)) e (r, p, q, f, g) =
    (r, p, omega arith, f, λ s k l. none_at hvs n s e (g s k) l)

first-IsLatest :
    (hvs : HeightVoteSet) (n : ℕ) (o : Option BlockId) (rest : Option (ℤ × BlockId))
    → prevoted hvs (suc n) ≡ o
    → IsLatest hvs n rest
    → IsLatest hvs (suc n) (first_of (pos (suc n)) o rest)
first-IsLatest hvs n none rest e h = one_later hvs n rest e h
first-IsLatest hvs n (some b) rest e h =
    (suc n, refl, omega arith, e, λ s k l. absurd (omega arith))

zero-IsLatest :
    (hvs : HeightVoteSet) (o : Option BlockId)
    → prevoted hvs 0 ≡ o
    → IsLatest hvs 0 (first_of (pos 0) o none)
zero-IsLatest hvs none e = λ s l. let z : s ≡ 0 = omega arith in ap (prevoted hvs) z ∙ e
zero-IsLatest hvs (some b) e = (0, refl, omega arith, e, λ s k l. absurd (omega arith))

pol_from-IsLatest : (n : ℕ) (hvs : HeightVoteSet) → IsLatest hvs n (pol_from n hvs)
unfolding pol_from
pol_from-IsLatest zero hvs = zero-IsLatest hvs (prevoted hvs 0) refl
pol_from-IsLatest (suc n) hvs =
    first-IsLatest hvs n (prevoted hvs (suc n)) (pol_from n hvs) refl (pol_from-IsLatest n hvs)

-- In a set of votes at the round `n`, POLInfo gives the latest round up to `n` whose prevotes have a
-- majority, with its block; and it gives no round only where no round up to `n` has one.
pub pol_info-IsLatest :
    (n : ℕ) (hvs : HeightVoteSet) → hvs.round ≡ pos n → IsLatest hvs n (pol_info hvs)
unfolding pol_info
pol_info-IsLatest n hvs e =
    subst (λ (z : ℤ). IsLatest hvs n (pol_at z hvs)) (sym e) (pol_from-IsLatest n hvs)
