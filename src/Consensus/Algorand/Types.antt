-- ===== src/Consensus/Algorand/Types.antt =====
-- consensus/algorand/types: blocks as votes name them (block.go, partSet.go), votes (vote.go), and the
-- voting power of validators (validator.go).
use hnb_blockchain.Prelude.{
  ℕ, ◌==◌, ◌/◌, if◌then◌else◌, ◌≡◌, refl, arith, Bool, true, false, ◌&&◌, ◌||◌, List, [], ◌∷◌, ◌++◌,
  suc,
}
use mathlib.Core.Path.{ap₂}
use hnb_blockchain.Prelude.Bytes.{Bytes, bytes_equal, bytes_equal_iff}
use hnb_blockchain.Prelude.Int.{
  ℤ, pos, negsuc, pos_part, neg_part, sub_ℕ, ltb_ℤ, sub64, add64, mul64, min_int64, max_int64,
}
use hnb_blockchain.Consensus.Dbft.Types.{Validator}

pub record PartSetHeader : Type 0 where
  pub total : ℤ
  pub hash : Bytes

pub record BlockId : Type 0 where
  pub hash : Bytes
  pub parts_header : PartSetHeader

abbrev pub equal_ℤ : ℤ → ℤ → Bool
equal_ℤ a b = (pos_part a == pos_part b) && (neg_part a == neg_part b)

unfoldable pub header_equals : PartSetHeader → PartSetHeader → Bool
header_equals h other = equal_ℤ h.total other.total && bytes_equal h.hash other.hash

unfoldable pub block_id_equals : BlockId → BlockId → Bool
unfolding header_equals
block_id_equals b other =
    bytes_equal b.hash other.hash && header_equals b.parts_header other.parts_header

-- `part_key` is the digest that `Key` appends, of the header's encoding.
unfoldable pub key : (PartSetHeader → Bytes) → BlockId → Bytes
key part_key b = b.hash ++ part_key b.parts_header

pub record Vote : Type 0 where
  pub validator_address : Bytes
  pub validator_index : ℤ
  pub height : ℕ
  pub round : ℤ
  pub timestamp : ℕ
  pub type_ : ℕ
  pub block_id : BlockId
  pub signature : Bytes

abbrev pub vote_type_prevote : ℕ
vote_type_prevote = 0x01

abbrev pub vote_type_precommit : ℕ
vote_type_precommit = 0x02

unfoldable pub is_vote_type_valid : ℕ → Bool
is_vote_type_valid type_ = type_ == vote_type_prevote || type_ == vote_type_precommit

-- The sum and whether it overflows.
unfoldable pub safe_add : ℤ → ℤ → ℤ × Bool
safe_add a b =
    if ltb_ℤ (pos 0) b && ltb_ℤ (sub64 max_int64 b) a
    then (negsuc 0, true)
    else if ltb_ℤ b (pos 0) && ltb_ℤ a (sub64 min_int64 b)
    then (negsuc 0, true)
    else (add64 a b, false)

abbrev pub clip : ℤ → ℤ × Bool → ℤ
clip b (c, false) = c
clip b (c, true) = if ltb_ℤ b (pos 0) then min_int64 else max_int64

unfoldable pub safe_add_clip : ℤ → ℤ → ℤ
unfolding safe_add
safe_add_clip a b = clip b (safe_add a b)

unfoldable pub add_powers : ℤ → List Validator → ℤ
unfolding safe_add_clip
add_powers total [] = total
add_powers total (v ∷ vals) = add_powers (safe_add_clip total v.voting_power) vals

-- The source keeps the total beside the validators once it is not zero, to save the loop.
unfoldable pub total_voting_power : List Validator → ℤ
unfolding add_powers
total_voting_power vals = add_powers (pos 0) vals

-- Go's division rounds towards zero.
abbrev pub third : ℤ → ℤ
third (pos n) = pos (n / 3)
third (negsuc n) = sub_ℕ 0 (suc n / 3)

-- `TotalVotingPower() * 2 / 3`
unfoldable pub two_thirds : List Validator → ℤ
unfolding total_voting_power
two_thirds vals = third (mul64 (total_voting_power vals) (pos 2))

part_set_header : ℤ → Bytes → PartSetHeader
part_set_header total hash = record { total = total; hash = hash }

block_id_of : Bytes → PartSetHeader → BlockId
block_id_of hash parts_header = record { hash = hash; parts_header = parts_header }

equal_ℤ_sound : (a b : ℤ) → equal_ℤ a b ≡ true → a ≡ b
equal_ℤ_sound (pos m) (pos n) e = ground (arith, e)
equal_ℤ_sound (pos m) (negsuc n) e = absurd (ground (arith, e))
equal_ℤ_sound (negsuc m) (pos n) e = absurd (ground (arith, e))
equal_ℤ_sound (negsuc m) (negsuc n) e = ground (arith, e)

pub and_both : (a b : Bool) → (a && b) ≡ true → (a ≡ true) × (b ≡ true)
and_both true b e = (refl, e)
and_both false b e = absurd (ground (arith, e))

header_equals_sound : (h h' : PartSetHeader) → header_equals h h' ≡ true → h ≡ h'
unfolding header_equals part_set_header
header_equals_sound h h' e =
    let p = and_both (equal_ℤ h.total h'.total) (bytes_equal h.hash h'.hash) e in
    ap₂ part_set_header (equal_ℤ_sound h.total h'.total p.0)
      ((bytes_equal_iff h.hash h'.hash).0 p.1)

pub block_id_equals_sound : (b b' : BlockId) → block_id_equals b b' ≡ true → b ≡ b'
unfolding block_id_equals block_id_of
block_id_equals_sound b b' e =
    let p =
      and_both (bytes_equal b.hash b'.hash) (header_equals b.parts_header b'.parts_header) e in
    ap₂ block_id_of ((bytes_equal_iff b.hash b'.hash).0 p.0)
      (header_equals_sound b.parts_header b'.parts_header p.1)
