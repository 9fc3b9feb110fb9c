-- ===== src/Consensus/Dbft/Witnesses/Shuffle.antt =====
-- The shuffle only reorders the witnesses.
use hnb_blockchain.Prelude.{
  ℕ, zero, suc, ◌+◌, ◌%◌, ◌≡◌, ◌∙◌, refl, Bool, Option, none, some, List, [], ◌∷◌, length,
  get_elem?, set, arith, if◌then◌else◌,
}
use hnb_blockchain.Consensus.Dbft.Types.{Validator}
use hnb_blockchain.Consensus.Dbft.Witnesses.{swap, swap_found, mix, shuffle_from, witness_shuffle}

-- How many of the validators pass a test.
abbrev pub count : (Validator → Bool) → List Validator → ℕ
count p [] = 0
count p (v ∷ vs) = (if p v then 1 else 0) + count p vs

abbrev tally : (Validator → Bool) → Validator → ℕ
tally p v = if p v then 1 else 0

count-set :
    (p : Validator → Bool) (xs : List Validator) (i : ℕ) (a b : Validator)
    → get_elem? xs i ≡ some a
    → count p (set xs i b) + tally p a ≡ count p xs + tally p b
count-set p [] i a b h = absurd (cc)
count-set p (x ∷ xs) zero a b h = ground arith
count-set p (x ∷ xs) (suc i) a b h = ground (arith, count-set p xs i a b h)

there_after_set :
    (xs : List Validator) (i j : ℕ) (a b : Validator)
    → get_elem? xs i ≡ some a
    → get_elem? xs j ≡ some b
    → get_elem? (set xs i b) j ≡ some b
there_after_set [] i j a b hi hj = absurd (cc)
there_after_set (x ∷ xs) zero zero a b hi hj = refl
there_after_set (x ∷ xs) zero (suc j) a b hi hj = hj
there_after_set (x ∷ xs) (suc i) zero a b hi hj = hj
there_after_set (x ∷ xs) (suc i) (suc j) a b hi hj = there_after_set xs i j a b hi hj

count-swap_found :
    (p : Validator → Bool) (i j : ℕ) (oa ob : Option Validator) (xs : List Validator)
    → get_elem? xs i ≡ oa
    → get_elem? xs j ≡ ob
    → count p (swap_found i j oa ob xs) ≡ count p xs
unfolding swap_found
count-swap_found p i j (some a) (some b) xs hi hj = grind (
  arith,
  count-set p xs i a b hi,
  count-set p (set xs i b) j b a (there_after_set xs i j a b hi hj),
)
count-swap_found p i j (some a) none xs hi hj = refl
count-swap_found p i j none ob xs hi hj = refl

count-swap :
    (p : Validator → Bool) (i j : ℕ) (xs : List Validator) → count p (swap i j xs) ≡ count p xs
unfolding swap
count-swap p i j xs =
    unfold swap_found in count-swap_found p i j (get_elem? xs i) (get_elem? xs j) xs refl refl

count-shuffle_from :
    (p : Validator → Bool) (seed i left : ℕ) (d : List Validator)
    → count p (shuffle_from seed i left d) ≡ count p d
unfolding shuffle_from
count-shuffle_from p seed i zero d = refl
count-shuffle_from p seed i (suc left) d =
    count-shuffle_from p seed (i + 1) left _ ∙ count-swap p i (i + mix seed i % suc left) d

-- The shuffle of the witnesses is a reordering: whatever the seed, every test is passed by as many
-- witnesses after it as before.
pub witness_shuffle_reorders :
    (seed : ℕ) (s : List Validator) (p : Validator → Bool)
    → count p (witness_shuffle seed s) ≡ count p s
unfolding witness_shuffle
witness_shuffle_reorders seed s p = count-shuffle_from p seed 0 (length s) s
