-- ===== src/Consensus/Dbft/Witnesses/Filling.antt =====
-- When the loop that fills up the witnesses ends.
use hnb_blockchain.Prelude.{
  ℕ, zero, suc, ◌+◌, ◌*◌, ◌≤◌, ◌<◌, ◌++◌, ◌≡◌, ◌≢◌, ◌∙◌, none, some, List, length, length-append,
  arith,
}
use hnb_blockchain.Consensus.Dbft.Types.{Validator}
use hnb_blockchain.Consensus.Dbft.Witnesses.{fill}

-- The list after `t` passes.
abbrev pub passes : ℕ → List Validator → List Validator → List Validator
passes zero more w = w
passes (suc t) more w = passes t more (w ++ more)

fill_now : (fuel n : ℕ) (more w : List Validator) → length w ≡ n → fill fuel n more w ≡ some w
unfolding fill
fill_now zero n more w h = ground arith
fill_now (suc fuel) n more w h = ground arith

fill_on :
    (fuel n : ℕ) (more w : List Validator)
    → length w ≢ n
    → fill (suc fuel) n more w ≡ fill fuel n more (w ++ more)
unfolding fill
fill_on fuel n more w h = ground arith

-- Where some validators are left and `t` whole passes over them lead to exactly the wanted number,
-- the loop ends after these passes, with as many witnesses as wanted, and fuel for them is enough.
pub fill_ends :
    (t fuel : ℕ) (more w : List Validator)
    → 0 < length more
    → t ≤ fuel
    → (fill fuel (length w + t * length more) more w ≡ some (passes t more w))
      × (length (passes t more w) ≡ length w + t * length more)
fill_ends zero fuel more w ne h = (fill_now fuel _ more w (omega arith), omega arith)
fill_ends (suc t) zero more w ne h = absurd (omega arith)
fill_ends (suc t) (suc fuel) more w ne h =
    let (ended, full) = fill_ends t fuel more (w ++ more) ne (omega arith) in
    (fill_on fuel _ more w (λ e. grind arith) ∙ rw shift ended, full ∙ grind (arith, shift))
  where
    shift : length w + suc t * length more ≡ length (w ++ more) + t * length more
    shift = grind (arith, length-append w more)

-- Once the list is longer than wanted, no number of passes ends the loop.
pub fill_overshoots :
    (fuel n : ℕ) (more w : List Validator) → n < length w → fill fuel n more w ≡ none
unfolding fill
fill_overshoots zero n more w h = ground arith
fill_overshoots (suc fuel) n more w h =
    ground (arith, fill_overshoots fuel n more (w ++ more), length-append w more)
